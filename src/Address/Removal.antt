-- ===== src/Address/Removal.antt =====
-- Removing the default address makes another one the default.
use lucky_draw.Common.{
  ℕ, ◌+◌, ◌≤◌, ◌≡◌, refl, Bool, true, false, not, none, some, List, [], ◌∷◌, map, arith, ltb, ◌==◌,
  if◌then◌else◌, find, select, count_where, update_where, contains, Distinct-select, Distinct,
  Option-cases, Bool-cases, inl, inr,
}
use lucky_draw.Model.{Db, Address, ok}
use lucky_draw.Cipher.{Cipher}
use lucky_draw.Address.{
  is_mine, is_mine_default, is_address, set_default, latest, promote, owned, remove,
}
use lucky_draw.Address.Default.{IsDefaulted, address_id, one_if_any, find-mine}

find-contains :
    (id : ℕ) (rows : List Address) (b : Address)
    → find (is_address id) rows ≡ some b
    → contains (map address_id rows) id ≡ true
find-contains id [] b h = absurd (ground arith)
find-contains id (a ∷ rows) b h = ground (arith, find-contains id rows b)

latest-none :
    (user : ℕ) (rows : List Address)
    → latest (select (is_mine user) rows) ≡ none
    → count_where (is_mine user) rows ≡ 0
latest-none user [] h = refl
latest-none user (a ∷ rows) h =
    ground (arith, latest-none user rows, Option-cases (latest (select (is_mine user) rows)))

latest-found :
    (user : ℕ) (rows : List Address) (b : Address)
    → latest (select (is_mine user) rows) ≡ some b
    → Distinct address_id rows
    → (find (is_address b.id) rows ≡ some b) × (b.user_id ≡ user)
latest-found user [] b h d = absurd (ground arith)
latest-found user (a ∷ rows) b h d = elim (Option-cases (latest (select (is_mine user) rows))) [
  | inl e ↦ ground arith
  | inr (c, e) ↦ ground (
    arith,
    latest-found user rows c e d.1,
    find-contains c.id rows c,
    Bool-cases (ltb a.updated_at c.updated_at),
  )
]

default-le-mine :
    (u : ℕ) (rows : List Address)
    → count_where (is_mine_default u) rows ≤ count_where (is_mine u) rows
default-le-mine u [] = omega arith
default-le-mine u (a ∷ rows) = ground (arith, default-le-mine u rows)

module _ (now user id : ℕ) where
  -- Making one address the default.
  set_mine :
      (u : ℕ) (rows : List Address)
      → count_where (is_mine u) (update_where (is_address id) (set_default now) rows)
        ≡ count_where (is_mine u) rows
  set_mine u [] = refl
  set_mine u (a ∷ rows) = ground (arith, set_mine u rows)

  set_absent :
      (u : ℕ) (rows : List Address)
      → contains (map address_id rows) id ≡ false
      → count_where (is_mine_default u) (update_where (is_address id) (set_default now) rows)
        ≡ count_where (is_mine_default u) rows
  set_absent u [] h = refl
  set_absent u (a ∷ rows) h = ground (arith, set_absent u rows)

  set_found :
      (u : ℕ) (rows : List Address) (b : Address)
      → find (is_address id) rows ≡ some b
      → b.user_id ≡ user
      → Distinct address_id rows
      → count_where (is_mine_default user) rows ≡ 0
      → count_where (is_mine_default u) (update_where (is_address id) (set_default now) rows)
        ≡ (if u == user then 1 else count_where (is_mine_default u) rows)
  set_found u [] b known own unique none_set = absurd (ground arith)
  set_found u (a ∷ rows) b known own unique none_set =
      ground (arith, set_absent u rows, set_found u rows b)

  -- Taking the row out.
  abbrev without : List Address → List Address
  without rows = select (λ a. not (is_address id a)) rows

  without_absent :
      (p : Address → Bool) (rows : List Address)
      → contains (map address_id rows) id ≡ false
      → count_where p (without rows) ≡ count_where p rows
  without_absent p [] h = refl
  without_absent p (a ∷ rows) h = ground (arith, without_absent p rows)

  without_found :
      (p : Address → Bool) (rows : List Address) (e : Address)
      → find (is_address id) rows ≡ some e
      → Distinct address_id rows
      → count_where p (without rows) + (if p e then 1 else 0) ≡ count_where p rows
  without_found p [] e known unique = absurd (ground arith)
  without_found p (a ∷ rows) e known unique =
      ground (arith, without_absent p rows, without_found p rows e)

promoted :
    (cipher : Cipher) (now user u : ℕ) (rows : List Address)
    → Distinct address_id rows
    → count_where (is_mine_default user) rows ≡ 0
    → (count_where (is_mine u) (promote cipher user now (latest (select (is_mine user) rows)) rows)
        ≡ count_where (is_mine u) rows)
      × (count_where
            (is_mine_default u)
            (promote cipher user now (latest (select (is_mine user) rows)) rows)
          ≡ (if u == user
              then one_if_any (count_where (is_mine user) rows)
              else count_where (is_mine_default u) rows))
promoted cipher now user u rows unique none_set =
    elim (Option-cases (latest (select (is_mine user) rows))) [
      | inl e ↦ ground (arith, latest-none user rows e)
      | inr (b, e) ↦
          let (found, own) = latest-found user rows b e unique in
          ground (
            arith,
            set_mine now user b.id u rows,
            set_found now user b.id u rows b found own unique none_set,
            find-mine b.id user rows b found own,
          )
    ]

module _ (cipher : Cipher) (user now id : ℕ) where
  -- If addresses have different identifiers and every user with addresses has one default address,
  -- this is so after an address is removed: if it was the default, another one of its user becomes
  -- the default, if there is one.
  pub remove-IsDefaulted :
      (db : Db) {x : Unit {0}} {db' : Db}
      → remove cipher user now id db ≡ ok (x, db')
      → Distinct address_id db.addresses
      → IsDefaulted db.addresses
      → IsDefaulted db'.addresses
  unfolding remove owned
  remove-IsDefaulted db h unique before = λ u.
      elim (Option-cases (find (is_address id) db.addresses)) [
        | inl e ↦ absurd (ground arith)
        | inr (a, known) ↦
            let rows = without now user id db.addresses in
            let kept =
              Distinct-select address_id (λ x. not (is_address id x)) db.addresses unique in
            let mine = without_found now user id (is_mine u) db.addresses a known unique in
            let defaults =
              without_found now user id (is_mine_default u) db.addresses a known unique in
            let own =
              without_found now user id (is_mine_default user) db.addresses a known unique in
            elim (Bool-cases a.is_default) [
              | inl d ↦
                  let cleared : count_where (is_mine_default user) rows ≡ 0 =
                    ground (arith, before user, own, find-mine id user db.addresses a known) in
                  ground
                    (arith, before u, mine, defaults, promoted cipher now user u rows kept cleared)
              | inr d ↦ ground (
                arith,
                before u,
                mine,
                defaults,
                default-le-mine u rows,
                find-mine id user db.addresses a known,
              )
            ]
      ]
