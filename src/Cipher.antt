-- ===== src/Cipher.antt =====
-- What the services use of FieldCipherService (apps/backend/src/crypto/field-cipher.service.ts), as
-- an interface: the column's name goes into every call, and a value that was enciphered for another
-- column, or damaged, is refused. The random initialisation vector is part of the function given.
use text.Mathlib.Text
use lucky_draw.Common.{
  ℕ, ◌≡◌, refl, Bool, false, String, Option, none, some, arith, Bool-cases, if◌then◌else◌,
}
use lucky_draw.Model.{ShippingAddress, Result, ok, err, decrypt_failed}

pub data Column : Type 0 where
  recipient phone postal_code address_line1 address_line2 : Column

-- The tables with enciphered addresses.
pub data Table : Type 0 where
  address shipment : Table

pub record Cipher : Type 0 where
  pub encrypt : Table → Column → String → String
  -- `none`: it throws.
  pub decrypt : Table → Column → String → Option String
  -- The JSON of an order's `shippingSnapshot`, with the time of its capture.
  pub encrypt_json : ShippingAddress → ℕ → String
  -- `none`: it throws; `some none`: the JSON is no address (`parseSnapshot` gives null).
  pub decrypt_json : String → Option (Option ShippingAddress)

abbrev pub is_empty : String → Bool
is_empty s = Text.◌==◌ s ""

-- What is enciphered for a column can be read again, and is not the empty text.
pub record IsFaithful (c : Cipher) : Type 0 where
  pub decrypt-encrypt :
      (t : Table) (col : Column) (s : String) → c.decrypt t col (c.encrypt t col s) ≡ some s
  pub encrypt-is_empty :
      (t : Table) (col : Column) (s : String)
      → is_empty s ≡ false
      → is_empty (c.encrypt t col s) ≡ false

-- A second line that says something: the empty text counts as none.
abbrev pub said : Option String → Option String
said none = none
said (some s) = if is_empty s then none else some s

abbrev pub without_empty : ShippingAddress → ShippingAddress
without_empty a = record a { address_line2 = said a.address_line2 }

module _ (c : Cipher) (t : Table) where
  -- `p.addressLine2 ? encrypt : null`
  abbrev pub encrypt_option : Option String → Option String
  encrypt_option none = none
  encrypt_option (some s) = if is_empty s then none else some (c.encrypt t Column.address_line2 s)

  -- The five fields of an address, column by column.
  unfoldable pub encrypt_address : ShippingAddress → ShippingAddress
  encrypt_address a = record {
    recipient = c.encrypt t Column.recipient a.recipient;
    phone = c.encrypt t Column.phone a.phone;
    postal_code = c.encrypt t Column.postal_code a.postal_code;
    address_line1 = c.encrypt t Column.address_line1 a.address_line1;
    address_line2 = encrypt_option a.address_line2;
  }

  abbrev field : Option String → Result String
  field none = err decrypt_failed
  field (some s) = ok s

  abbrev some_field : Option String → Result (Option String)
  some_field none = err decrypt_failed
  some_field (some p) = ok (some p)

  -- `a.addressLine2 ? decrypt : a.addressLine2`
  abbrev field_option : Option String → Result (Option String)
  field_option none = ok none
  field_option (some s) =
      if is_empty s then ok (some s) else some_field (c.decrypt t Column.address_line2 s)

  infixl 5 ◌then◌
  abbrev ◌then◌ : {A B : Type 0} → Result A → (A → Result B) → Result B
  ok a then f = f a
  err e then f = err e

  unfoldable pub decrypt_address : ShippingAddress → Result ShippingAddress
  decrypt_address a = field (c.decrypt t Column.recipient a.recipient) then λ recipient.
      field (c.decrypt t Column.phone a.phone) then λ phone.
      field (c.decrypt t Column.postal_code a.postal_code) then λ postal_code.
      field (c.decrypt t Column.address_line1 a.address_line1) then λ line1.
      field_option a.address_line2 then λ line2. ok (record {
        recipient = recipient;
        phone = phone;
        postal_code = postal_code;
        address_line1 = line1;
        address_line2 = line2;
      })

  field_option-encrypt_option :
      IsFaithful c → (line : Option String) → field_option (encrypt_option line) ≡ ok (said line)
  field_option-encrypt_option f none = refl
  field_option-encrypt_option f (some s) = ground (
    arith,
    Bool-cases (is_empty s),
    f.encrypt-is_empty t Column.address_line2 s,
    f.decrypt-encrypt t Column.address_line2 s,
  )

  -- A stored address is read back as it was given, but for an empty second line.
  pub decrypt_address-encrypt_address :
      IsFaithful c
      → (a : ShippingAddress) → decrypt_address (encrypt_address a) ≡ ok (without_empty a)
  unfolding decrypt_address encrypt_address
  decrypt_address-encrypt_address f a =
      rw
        (
          f.decrypt-encrypt t Column.recipient a.recipient,
          f.decrypt-encrypt t Column.phone a.phone,
          f.decrypt-encrypt t Column.postal_code a.postal_code,
          f.decrypt-encrypt t Column.address_line1 a.address_line1,
          field_option-encrypt_option f a.address_line2,
        )
        refl
