-- ===== src/Address.antt =====
-- The addresses of a user (apps/backend/src/address/address.service.ts).
pub mod Default
pub mod Removal
pub mod Steps
pub mod Stored
use lucky_draw.Common.{
  ℕ, Bool, true, false, not, ◌&&◌, ◌||◌, String, Option, none, some, List, [], ◌∷◌, ◌++◌, ltb, ◌==◌,
  if◌then◌else◌, find, select, count_where, update_where,
}
use lucky_draw.Model.{
  Db, Address, ShippingAddress, Result, ok, err, forbidden, not_found, address_not_found,
}
use lucky_draw.Tx.{Tx, pure, gets, or_throw, modify, throw_if, lift, ◌>>=◌, ◌>>◌}
use lucky_draw.Cipher.{Cipher, Table, Column, encrypt_option, encrypt_address, decrypt_address}

abbrev pub is_mine : ℕ → Address → Bool
is_mine user a = a.user_id == user

abbrev pub is_mine_default : ℕ → Address → Bool
is_mine_default user a = a.user_id == user && a.is_default

abbrev pub is_address : ℕ → Address → Bool
is_address id a = a.id == id

-- `updateMany` writes the time of the update as well.
abbrev pub clear_default : ℕ → Address → Address
clear_default now a = record a { is_default = false; updated_at = now }

abbrev pub set_default : ℕ → Address → Address
set_default now a = record a { is_default = true; updated_at = now }

-- The later of the rows first; a row of the same time stays behind the ones before it.
abbrev pub latest : List Address → Option Address
latest [] = none
latest (a ∷ rows) = elim (latest rows) [
  | none ↦ some a
  | some b ↦ if ltb a.updated_at b.updated_at then some b else some a
]

-- The default addresses come first, and of each kind the ones that changed last.
abbrev pub comes_before : Address → Address → Bool
comes_before a b =
    a.is_default && not b.is_default
    || not (b.is_default && not a.is_default) && not (ltb a.updated_at b.updated_at)

abbrev pub insert_address : Address → List Address → List Address
insert_address a [] = a ∷ []
insert_address a (x ∷ xs) = if comes_before a x then a ∷ x ∷ xs else x ∷ insert_address a xs

abbrev pub sort_addresses : List Address → List Address
sort_addresses [] = []
sort_addresses (x ∷ xs) = insert_address x (sort_addresses xs)

-- `CreateAddressDto` and `UpdateAddressDto`, which their decorators have checked. Of the second line
-- of an address that is to be changed, `some none` is an empty one.
pub record NewAddress : Type 0 where
  pub fields : ShippingAddress
  pub is_default : Bool

pub record AddressChange : Type 0 where
  pub recipient : Option String
  pub phone : Option String
  pub postal_code : Option String
  pub address_line1 : Option String
  pub address_line2 : Option (Option String)
  pub is_default : Bool

module _ (cipher : Cipher) where
  -- `decryptRow`
  unfoldable pub decrypt_row : Address → Result Address
  decrypt_row a = elim (decrypt_address cipher Table.address a.fields) [
    | err e ↦ err e
    | ok fields ↦ ok (record a { fields = fields })
  ]

  unfoldable pub decrypt_rows : List Address → Result (List Address)
  unfolding decrypt_row
  decrypt_rows [] = ok []
  decrypt_rows (a ∷ rows) =
      let rest = decrypt_rows rows in
      elim (decrypt_row a) [
        | err e ↦ err e
        | ok shown ↦ elim rest [ err e ↦ err e | ok more ↦ ok (shown ∷ more) ]
      ]

  unfoldable pub list : ℕ → Tx (List Address)
  unfolding decrypt_rows
  list user = do
    rows ← gets (λ db. sort_addresses (select (is_mine user) db.addresses))
    lift (decrypt_rows rows)

  -- The row of an address that the user owns.
  unfoldable pub owned : ℕ → ℕ → Tx Address
  owned user id = do
    found ← gets (λ db. find (is_address id) db.addresses)
    a ← or_throw found (not_found address_not_found)
    throw_if (not (a.user_id == user)) forbidden
    pure a

  unfoldable pub find_one_owned : ℕ → ℕ → Tx Address
  unfolding owned decrypt_row
  find_one_owned user id = do a ← owned user id; lift (decrypt_row a)

  abbrev encrypt_or : Column → Option String → String → String
  encrypt_or column none old = old
  encrypt_or column (some new) old = cipher.encrypt Table.address column new

  abbrev encrypt_or_null : Option (Option String) → Option String → Option String
  encrypt_or_null none old = old
  encrypt_or_null (some new) old = encrypt_option cipher Table.address new

  abbrev pub change_fields : AddressChange → ShippingAddress → ShippingAddress
  change_fields dto a = record {
    recipient = encrypt_or Column.recipient dto.recipient a.recipient;
    phone = encrypt_or Column.phone dto.phone a.phone;
    postal_code = encrypt_or Column.postal_code dto.postal_code a.postal_code;
    address_line1 = encrypt_or Column.address_line1 dto.address_line1 a.address_line1;
    address_line2 = encrypt_or_null dto.address_line2 a.address_line2;
  }

  module _ (user now : ℕ) where
    abbrev pub clear_defaults : Bool → (Address → Bool) → Db → Db
    clear_defaults false p db = db
    clear_defaults true p db = record db {
      addresses = update_where p (clear_default now) db.addresses;
    }

    abbrev pub new_address : ℕ → NewAddress → Bool → Address
    new_address fresh dto default = record {
      id = fresh;
      user_id = user;
      fields = encrypt_address cipher Table.address dto.fields;
      is_default = default;
      updated_at = now;
    }

    -- The transaction of `create`.
    unfoldable pub create : ℕ → NewAddress → Tx Address
    unfolding decrypt_row
    create fresh dto = do
      count ← gets (λ db. count_where (is_mine user) db.addresses)
      let default = dto.is_default || count == 0
      modify (clear_defaults default (is_mine_default user))
      modify (λ db. record db { addresses = db.addresses ++ new_address fresh dto default ∷ [] })
      lift (decrypt_row (new_address fresh dto default))

    abbrev pub changed : AddressChange → Address → Address
    changed dto a = record a {
      fields = change_fields dto a.fields;
      is_default = a.is_default || dto.is_default;
      updated_at = now;
    }

    abbrev pub is_other_default : ℕ → Address → Bool
    is_other_default id a = is_mine_default user a && not (a.id == id)

    -- The transaction of `update`.
    unfoldable pub update : ℕ → AddressChange → Tx Address
    unfolding owned decrypt_row
    update id dto = do
      existing ← owned user id
      modify (clear_defaults dto.is_default (is_other_default id))
      modify
          (λ db. record db { addresses = update_where (is_address id) (changed dto) db.addresses })
      lift (decrypt_row (changed dto existing))

    abbrev pub promote : Option Address → List Address → List Address
    promote none rows = rows
    promote (some a) rows = update_where (is_address a.id) (set_default now) rows

    abbrev pub pass_on : Bool → Db → Db
    pass_on false db = db
    pass_on true db = record db {
      addresses = promote (latest (select (is_mine user) db.addresses)) db.addresses;
    }

    -- The transaction of `remove`.
    unfoldable pub remove : ℕ → Tx (Unit {0})
    unfolding owned
    remove id = do
      existing ← owned user id
      modify (λ db. record db { addresses = select (λ a. not (is_address id a)) db.addresses })
      modify (pass_on existing.is_default)
