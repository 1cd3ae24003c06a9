-- ===== src/Address/Default.antt =====
-- The default address: exactly one for each user who has addresses.
use lucky_draw.Common.{
  ℕ, ◌≡◌, refl, true, false, ◌||◌, some, List, [], ◌∷◌, map, arith, ◌==◌, if◌then◌else◌, find,
  count_where, update_where, contains, Distinct, count_where-append, Option-cases, Bool-cases, inl,
  inr,
}
use lucky_draw.Model.{Db, Address, ok}
use lucky_draw.Tx.{Result-cases}
use lucky_draw.Cipher.{Cipher}
use lucky_draw.Address.{
  NewAddress, AddressChange, is_mine, is_mine_default, is_address, clear_default, new_address,
  create, changed, is_other_default, update, owned, decrypt_row,
}

abbrev pub one_if_any : ℕ → ℕ
one_if_any n = if n == 0 then 0 else 1

-- One default address for a user who has addresses, and none for one who has none.
abbrev pub IsDefaulted : List Address → Type 0
IsDefaulted rows =
    (user : ℕ)
    → count_where (is_mine_default user) rows ≡ one_if_any (count_where (is_mine user) rows)

abbrev pub address_id : Address → ℕ
address_id a = a.id

module _ (now user : ℕ) where
  -- Taking the default away from all addresses of a user.
  cleared_default :
      (u : ℕ) (rows : List Address)
      → count_where
          (is_mine_default u)
          (update_where (is_mine_default user) (clear_default now) rows)
        ≡ (if u == user then 0 else count_where (is_mine_default u) rows)
  cleared_default u [] = ground arith
  cleared_default u (a ∷ rows) = ground (arith, cleared_default u rows)

  cleared_mine :
      (u : ℕ) (rows : List Address)
      → count_where (is_mine u) (update_where (is_mine_default user) (clear_default now) rows)
        ≡ count_where (is_mine u) rows
  cleared_mine u [] = refl
  cleared_mine u (a ∷ rows) = ground (arith, cleared_mine u rows)

module _ (cipher : Cipher) (user now : ℕ) where
  -- If every user with addresses has one default address, this is so after a new address.
  pub create-IsDefaulted :
      (fresh : ℕ) (dto : NewAddress) (db : Db) {a : Address} {db' : Db}
      → create cipher user now fresh dto db ≡ ok (a, db')
      → IsDefaulted db.addresses
      → IsDefaulted db'.addresses
  unfolding create
  create-IsDefaulted fresh dto db {db' = db'} h before = λ u.
      let default = dto.is_default || count_where (is_mine user) db.addresses == 0 in
      let row = new_address cipher user now fresh dto default in
      elim (Bool-cases default) [
        | inl e ↦ ground (
          arith,
          before u,
          cleared_default now user u db.addresses,
          cleared_mine now user u db.addresses,
          count_where-append (is_mine_default u)
              (update_where (is_mine_default user) (clear_default now) db.addresses) (row ∷ []),
          count_where-append (is_mine u)
              (update_where (is_mine_default user) (clear_default now) db.addresses) (row ∷ []),
          Result-cases (decrypt_row cipher row),
        )
        | inr e ↦ ground (
          arith,
          before u,
          count_where-append (is_mine_default u) db.addresses (row ∷ []),
          count_where-append (is_mine u) db.addresses (row ∷ []),
          Result-cases (decrypt_row cipher row),
        )
      ]

pub find-mine :
    (id user : ℕ) (rows : List Address) (e : Address)
    → find (is_address id) rows ≡ some e
    → e.user_id ≡ user
    → (count_where (is_mine user) rows == 0) ≡ false
find-mine id user [] e known own = absurd (ground arith)
find-mine id user (a ∷ rows) e known own = ground (arith, find-mine id user rows e)

module _ (cipher : Cipher) (user now id : ℕ) (dto : AddressChange) where
  abbrev change : List Address → List Address
  change rows = update_where (is_address id) (changed cipher user now dto) rows

  changed_mine :
      (u : ℕ) (rows : List Address)
      → count_where (is_mine u) (change rows) ≡ count_where (is_mine u) rows
  changed_mine u [] = refl
  changed_mine u (a ∷ rows) = ground (arith, changed_mine u rows)

  others_mine :
      (u : ℕ) (rows : List Address)
      → count_where
          (is_mine u)
          (update_where (is_other_default cipher user now id) (clear_default now) rows)
        ≡ count_where (is_mine u) rows
  others_mine u [] = refl
  others_mine u (a ∷ rows) = ground (arith, others_mine u rows)

  -- The change of the fields alone.
  kept_default :
      dto.is_default ≡ false
      → (u : ℕ) (rows : List Address)
      → count_where (is_mine_default u) (change rows) ≡ count_where (is_mine_default u) rows
  kept_default e u [] = refl
  kept_default e u (a ∷ rows) = ground (arith, e, kept_default e u rows, Bool-cases a.is_default)

  -- The change into the default address.
  abbrev replace : List Address → List Address
  replace rows =
      change (update_where (is_other_default cipher user now id) (clear_default now) rows)

  replaced_absent :
      (u : ℕ) (rows : List Address)
      → contains (map address_id rows) id ≡ false
      → count_where (is_mine_default u) (replace rows)
        ≡ (if u == user then 0 else count_where (is_mine_default u) rows)
  replaced_absent u [] h = ground arith
  replaced_absent u (a ∷ rows) h = ground (arith, replaced_absent u rows)

  replaced_default :
      dto.is_default ≡ true
      → (u : ℕ) (rows : List Address) (e : Address) → find (is_address id) rows ≡ some e
      → e.user_id ≡ user
      → Distinct address_id rows
      → count_where (is_mine_default u) (replace rows)
        ≡ (if u == user then 1 else count_where (is_mine_default u) rows)
  replaced_default d u [] e known own unique = absurd (ground arith)
  replaced_default d u (a ∷ rows) e known own unique =
      ground
        (arith, d, Bool-cases a.is_default, replaced_absent u rows, replaced_default d u rows e)

  -- If addresses have different identifiers and every user with addresses has one default address,
  -- this is so after a change of an address.
  pub update-IsDefaulted :
      (db : Db) {a : Address} {db' : Db}
      → update cipher user now id dto db ≡ ok (a, db')
      → Distinct address_id db.addresses
      → IsDefaulted db.addresses
      → IsDefaulted db'.addresses
  unfolding update owned
  update-IsDefaulted db {db' = db'} h unique before = λ u.
      elim (Option-cases (find (is_address id) db.addresses)) [
        | inl e ↦ absurd (ground arith)
        | inr (a, known) ↦ elim (Bool-cases dto.is_default) [
          | inl d ↦ ground (
            arith,
            before u,
            replaced_default d u db.addresses a known,
            changed_mine u (
                update_where (is_other_default cipher user now id) (clear_default now)
                  db.addresses),
            others_mine u db.addresses,
            find-mine id user db.addresses a known,
            Result-cases (decrypt_row cipher (changed cipher user now dto a)),
          )
          | inr d ↦ ground (
            arith,
            before u,
            kept_default d u db.addresses,
            changed_mine u db.addresses,
            Result-cases (decrypt_row cipher (changed cipher user now dto a)),
          )
        ]
      ]
