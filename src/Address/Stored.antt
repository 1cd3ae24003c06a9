-- ===== src/Address/Stored.antt =====
-- An address that was stored is read back.
use lucky_draw.Common.{
  ℕ, ◌≡◌, refl, false, ◌||◌, some, List, [], ◌∷◌, ◌++◌, map, arith, ◌==◌, find, contains,
  contains-updated, count_where, update_where, Bool-cases, inl, inr,
}
use lucky_draw.Model.{Db, Address, ok}
use lucky_draw.Cipher.{Cipher, Table, IsFaithful, without_empty, decrypt_address-encrypt_address}
use lucky_draw.Address.{
  NewAddress, is_address, is_mine, is_mine_default, clear_default, new_address, create, owned,
  find_one_owned, decrypt_row,
}
use lucky_draw.Address.Default.{address_id}
use lucky_draw.Address.Steps.{IsNewAddress}

find-snoc :
    (id : ℕ) (rows : List Address) (a : Address)
    → contains (map address_id rows) id ≡ false
    → a.id ≡ id
    → find (is_address id) (rows ++ a ∷ []) ≡ some a
find-snoc id [] a h e = ground arith
find-snoc id (x ∷ rows) a h e = ground (arith, find-snoc id rows a)

module _ (cipher : Cipher) (user now fresh : ℕ) (dto : NewAddress) where
  -- If the cipher can read what it has written and the identifier is new, then creating an address
  -- succeeds with the fields that were given, but for an empty second line, which counts as none, and
  -- its user then finds the address with these fields.
  pub create-find_one_owned :
      IsFaithful cipher
      → (db : Db) → IsNewAddress fresh db
      → (a : Address) × (db' : Db) × (create cipher user now fresh dto db ≡ ok (a, db'))
        × (find_one_owned cipher user fresh db' ≡ ok (a, db'))
        × (a.fields ≡ without_empty dto.fields)
  unfolding create find_one_owned owned decrypt_row
  create-find_one_owned faithful db new =
      let default = dto.is_default || count_where (is_mine user) db.addresses == 0 in
      let row = new_address cipher user now fresh dto default in
      let shown = record row { fields = without_empty dto.fields } in
      let plain = decrypt_address-encrypt_address cipher Table.address faithful dto.fields in
      let cleared = update_where (is_mine_default user) (clear_default now) db.addresses in
      elim (Bool-cases default) [
        | inl e ↦
            let found =
              find-snoc fresh cleared row
                (ground (
                  arith,
                  contains-updated address_id (is_mine_default user) (clear_default now) (λ a. refl)
                      fresh db.addresses,
                ))
                refl in
            (
              shown,
              record db { addresses = cleared ++ row ∷ [] },
              ground (arith, e, plain),
              ground (arith, found, plain),
              refl,
            )
        | inr e ↦
            let found = find-snoc fresh db.addresses row new refl in
            (
              shown,
              record db { addresses = db.addresses ++ row ∷ [] },
              ground (arith, e, plain),
              ground (arith, found, plain),
              refl,
            )
      ]
