-- ===== src/Address/Steps.antt =====
-- Whatever a user does with addresses: they are created, changed, removed, and saved with an order of
-- tickets or seats (apps/backend/src/order/order.service.ts: resolveShipping). An order of products
-- is left out here: it saves an address that is not a default one even if it is the user's first.
use lucky_draw.Common.{
  ℕ, ◌≡◌, refl, Bool, true, false, not, ◌||◌, Option, none, some, [], ◌∷◌, ◌++◌, map, arith, ◌==◌,
  find, select, count_where, contains, contains-updated, update_where, Distinct, Distinct-select,
  Distinct-snoc, Distinct-updated, count_where-append, Option-cases, Bool-cases, inl, inr,
}
use lucky_draw.Model.{Db, Address, ShippingAddress, ok}
use lucky_draw.Tx.{pure, >>=-eq-ok, Result-cases}
use lucky_draw.Cipher.{Cipher, without_empty, Table, encrypt_address, decrypt_address}
use lucky_draw.Order.Shipping.{
  CreateOrder, saved_address, save_address, inline_address, resolve, resolve_shipping,
}
use lucky_draw.Address.{
  NewAddress, AddressChange, create, update, remove, owned, is_address, is_mine, is_mine_default,
  clear_default, new_address, changed, is_other_default, decrypt_row, latest, set_default,
}
use lucky_draw.Address.Default.{IsDefaulted, address_id, create-IsDefaulted, update-IsDefaulted}
use lucky_draw.Address.Removal.{remove-IsDefaulted}

abbrev pub IsNewAddress : ℕ → Db → Type 0
IsNewAddress id db = contains (map address_id db.addresses) id ≡ false

pub data AddressStep : Db → Db → Type 0 where
  created :
      (cipher : Cipher) (user now fresh : ℕ) (dto : NewAddress) {a : Address} {db db' : Db}
      → IsNewAddress fresh db
      → create cipher user now fresh dto db ≡ ok (a, db')
      → AddressStep db db'
  updated :
      (cipher : Cipher) (user now id : ℕ) (dto : AddressChange) {a : Address} {db db' : Db}
      → update cipher user now id dto db ≡ ok (a, db')
      → AddressStep db db'
  removed :
      (cipher : Cipher) (user now id : ℕ) {u : Unit {0}} {db db' : Db}
      → remove cipher user now id db ≡ ok (u, db')
      → AddressStep db db'
  saved :
      (cipher : Cipher) (fresh user now : ℕ) (dto : CreateOrder) {a : ShippingAddress} {db db' : Db}
      → IsNewAddress fresh db
      → resolve_shipping cipher fresh user now dto db ≡ ok (a, db')
      → AddressStep db db'

abbrev pub IsAddressBook : Db → Type 0
IsAddressBook db = Distinct address_id db.addresses × IsDefaulted db.addresses

module _ (cipher : Cipher) (user now : ℕ) where
  create-Distinct :
      (fresh : ℕ) (dto : NewAddress) (db : Db) {a : Address} {db' : Db}
      → IsNewAddress fresh db
      → create cipher user now fresh dto db ≡ ok (a, db')
      → Distinct address_id db.addresses
      → Distinct address_id db'.addresses
  unfolding create
  create-Distinct fresh dto db new h unique =
      let default = dto.is_default || count_where (is_mine user) db.addresses == 0 in
      let row = new_address cipher user now fresh dto default in
      let cleared = update_where (is_mine_default user) (clear_default now) db.addresses in
      elim (Bool-cases default) [
        | inl e ↦ ground (
          arith,
          Result-cases (decrypt_row cipher row),
          Distinct-snoc address_id row cleared
              (ground (
                arith,
                contains-updated address_id (is_mine_default user) (clear_default now) (λ a. refl)
                    fresh db.addresses,
              ))
              (Distinct-updated address_id (is_mine_default user) (clear_default now) (λ a. refl)
                db.addresses unique),
        )
        | inr e ↦ ground (
          arith,
          Result-cases (decrypt_row cipher row),
          Distinct-snoc address_id row db.addresses new unique,
        )
      ]

  update-Distinct :
      (id : ℕ) (dto : AddressChange) (db : Db) {a : Address} {db' : Db}
      → update cipher user now id dto db ≡ ok (a, db')
      → Distinct address_id db.addresses
      → Distinct address_id db'.addresses
  unfolding update owned
  update-Distinct id dto db h unique =
      let cleared =
        update_where (is_other_default cipher user now id) (clear_default now) db.addresses in
      let first =
        Distinct-updated address_id (is_other_default cipher user now id) (clear_default now)
          (λ a. refl) db.addresses unique in
      elim (Option-cases (find (is_address id) db.addresses)) [
        | inl e ↦ absurd (ground arith)
        | inr (a, known) ↦ elim (Bool-cases dto.is_default) [
          | inl d ↦ ground (
            arith,
            Result-cases (decrypt_row cipher (changed cipher user now dto a)),
            Distinct-updated address_id (is_address id) (changed cipher user now dto) (λ a. refl)
                cleared first,
          )
          | inr d ↦ ground (
            arith,
            Result-cases (decrypt_row cipher (changed cipher user now dto a)),
            Distinct-updated address_id (is_address id) (changed cipher user now dto) (λ a. refl)
                db.addresses unique,
          )
        ]
      ]

  remove-Distinct :
      (id : ℕ) (db : Db) {x : Unit {0}} {db' : Db}
      → remove cipher user now id db ≡ ok (x, db')
      → Distinct address_id db.addresses
      → Distinct address_id db'.addresses
  unfolding remove owned
  remove-Distinct id db h unique =
      let rows = select (λ a. not (is_address id a)) db.addresses in
      let kept = Distinct-select address_id (λ a. not (is_address id a)) db.addresses unique in
      elim (Option-cases (find (is_address id) db.addresses)) [
        | inl e ↦ absurd (ground arith)
        | inr (a, known) ↦ elim (Bool-cases a.is_default) [
          | inl d ↦ elim (Option-cases (latest (select (is_mine user) rows))) [
            | inl e ↦ ground arith
            | inr (b, e) ↦ ground (
              arith,
              Distinct-updated address_id (is_address b.id) (set_default now) (λ a. refl) rows kept,
            )
          ]
          | inr d ↦ ground arith
        ]
      ]

module _ (cipher : Cipher) (fresh user now : ℕ) where
  save_address-IsAddressBook :
      (a : ShippingAddress) (db : Db) {x : Unit {0}} {db' : Db}
      → IsNewAddress fresh db
      → save_address cipher fresh user now a db ≡ ok (x, db')
      → IsAddressBook db
      → IsAddressBook db'
  unfolding save_address
  save_address-IsAddressBook a db {db' = db'} new h (unique, before) =
      let row : Address = record {
        id = fresh;
        user_id = user;
        fields = encrypt_address cipher Table.address a;
        is_default = count_where (is_mine user) db.addresses == 0;
        updated_at = now;
      } in
      let added : db'.addresses ≡ db.addresses ++ row ∷ [] = ground arith in
      (
        rw added (Distinct-snoc address_id row db.addresses new unique),
        λ u. ground (
          arith,
          added,
          before u,
          count_where-append (is_mine u) db.addresses (row ∷ []),
          count_where-append (is_mine_default u) db.addresses (row ∷ []),
        ),
      )

  same_state :
      (x : ShippingAddress) (db : Db) {a : ShippingAddress} {db' : Db}
      → pure x db ≡ ok (a, db')
      → db' ≡ db
  same_state x db h = ground arith

  inline-IsAddressBook :
      (save : Bool) (given : Option ShippingAddress) (db : Db) {a : ShippingAddress} {db' : Db}
      → IsNewAddress fresh db
      → inline_address cipher fresh user now save given db ≡ ok (a, db')
      → IsAddressBook db
      → IsAddressBook db'
  unfolding inline_address
  inline-IsAddressBook save none db new h book = absurd (ground arith)
  inline-IsAddressBook true (some x) db new h book =
      let (u, mid, first, rest) =
        >>=-eq-ok (save_address cipher fresh user now x) (λ _. pure x) db h in
      rw (same_state x mid rest) (save_address-IsAddressBook x db {x = u} new first book)
  inline-IsAddressBook false (some x) db new h book = rw (same_state x db h) book

  saved-IsAddressBook :
      (dto : CreateOrder) (db : Db) {a : ShippingAddress} {db' : Db}
      → IsNewAddress fresh db
      → resolve_shipping cipher fresh user now dto db ≡ ok (a, db')
      → IsAddressBook db
      → IsAddressBook db'
  unfolding resolve_shipping resolve saved_address
  saved-IsAddressBook dto db {a = a} {db' = db'} new h book = elim (Option-cases dto.address_id) [
    | inl e ↦
        inline-IsAddressBook dto.save_address dto.shipping_address db {a = a} {db' = db'} new
          (ground (arith, e)) book
    | inr (id, e) ↦ elim (Option-cases (find (is_address id) db.addresses)) [
      | inl missing ↦ absurd (ground arith)
      | inr (x, known) ↦
          let same : db' ≡ db = ground (
            arith,
            e,
            known,
            Result-cases (decrypt_address cipher Table.address (without_empty x.fields)),
          ) in
          rw same book
    ]
  ]

-- If addresses have different identifiers and every user with addresses has exactly one default
-- address, this stays so when an address is created, changed or removed, and when an order of tickets
-- or seats saves the address that it was given.
pub AddressStep-IsAddressBook :
    (db db' : Db) → AddressStep db db' → IsAddressBook db → IsAddressBook db'
AddressStep-IsAddressBook db db' (AddressStep.created cipher user now fresh dto new h)
      (unique, before) =
    (
      create-Distinct cipher user now fresh dto db new h unique,
      create-IsDefaulted cipher user now fresh dto db h before,
    )
AddressStep-IsAddressBook db db' (AddressStep.updated cipher user now id dto h) (unique, before) = (
  update-Distinct cipher user now id dto db h unique,
  update-IsDefaulted cipher user now id dto db h unique before,
)
AddressStep-IsAddressBook db db' (AddressStep.removed cipher user now id {u = u} h)
      (unique, before) =
    (
      remove-Distinct cipher user now id db {x = u} h unique,
      remove-IsDefaulted cipher user now id db {x = u} h unique before,
    )
AddressStep-IsAddressBook db db' (AddressStep.saved cipher fresh user now dto new h) book =
    saved-IsAddressBook cipher fresh user now dto db new h book
