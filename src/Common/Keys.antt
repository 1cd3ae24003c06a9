-- ===== src/Common/Keys.antt =====
-- Tables whose rows have a key of their own, and updates by the keys of selected rows.
use Prim.Native.Nat.{ℕ}
use mathlib.Core.Path.{◌≡◌, refl}
use mathlib.Core.Bool.{Bool, false}
use mathlib.Core.List.{List, [], ◌∷◌, ◌++◌, map}
use native.Mathlib.Omega.{arith}
use lucky_draw.Common.Tests.{leb, ◌==◌, if◌then◌else◌}
use lucky_draw.Common.Lists.{contains}
use lucky_draw.Common.Tables.{select, update_where}

module _ {ℓ} {A : Type ℓ} (key : A → ℕ) where
  -- No two rows have the same key.
  abbrev pub Distinct : List A → Type 0
  Distinct [] = Unit
  Distinct (x ∷ xs) = (contains (map key xs) (key x) ≡ false) × Distinct xs

  contains-select :
      (p : A → Bool) (xs : List A) (k : ℕ)
      → contains (map key xs) k ≡ false
      → contains (map key (select p xs)) k ≡ false
  contains-select p [] k h = refl
  contains-select p (x ∷ xs) k h = ground (arith, contains-select p xs k)

  update_where-contains_cons :
      (f : A → A) (k : ℕ) (ks : List ℕ) (xs : List A)
      → contains (map key xs) k ≡ false
      → update_where (λ x. contains (k ∷ ks) (key x)) f xs
        ≡ update_where (λ x. contains ks (key x)) f xs
  update_where-contains_cons f k ks [] h = refl
  update_where-contains_cons f k ks (x ∷ xs) h =
      ground (arith, update_where-contains_cons f k ks xs)

  -- An update by the keys of the selected rows is an update by the selection's own condition.
  pub update_where-contains-select :
      (p : A → Bool) (f : A → A) (xs : List A)
      → Distinct xs
      → update_where (λ x. contains (map key (select p xs)) (key x)) f xs ≡ update_where p f xs
  update_where-contains-select p f [] h = refl
  update_where-contains-select p f (x ∷ xs) h = ground (
    arith,
    contains-select p xs (key x) h.0,
    update_where-contains_cons f (key x) (map key (select p xs)) xs h.0,
    update_where-contains-select p f xs h.1,
  )

  pub Distinct-select : (p : A → Bool) (xs : List A) → Distinct xs → Distinct (select p xs)
  Distinct-select p [] d = tt
  Distinct-select p (x ∷ xs) d =
      ground (arith, contains-select p xs (key x) d.0, Distinct-select p xs d.1)

  contains-snoc :
      (k : ℕ) (a : A) (xs : List A)
      → contains (map key xs) k ≡ false
      → (key a == k) ≡ false
      → contains (map key (xs ++ a ∷ [])) k ≡ false
  contains-snoc k a [] h other = ground arith
  contains-snoc k a (x ∷ xs) h other = ground (arith, contains-snoc k a xs)

  -- A new row with a key of its own.
  pub Distinct-snoc :
      (a : A) (xs : List A)
      → contains (map key xs) (key a) ≡ false
      → Distinct xs
      → Distinct (xs ++ a ∷ [])
  Distinct-snoc a [] h d = (refl, tt)
  Distinct-snoc a (x ∷ xs) h d = ground (arith, contains-snoc (key x) a xs d.0, Distinct-snoc a xs)

  -- An update that keeps the keys.
  module _ (p : A → Bool) (f : A → A) (keeps : (x : A) → key (f x) ≡ key x) where
    pub contains-updated :
        (k : ℕ) (xs : List A) → contains (map key (update_where p f xs)) k ≡ contains (map key xs) k
    contains-updated k [] = refl
    contains-updated k (x ∷ xs) = ground (arith, keeps x, contains-updated k xs)

    pub Distinct-updated : (xs : List A) → Distinct xs → Distinct (update_where p f xs)
    Distinct-updated [] d = tt
    Distinct-updated (x ∷ xs) d =
        ground (arith, keeps x, contains-updated (key x) xs, Distinct-updated xs d.1)

  -- `orderBy: { key: 'asc' }`, stable.
  abbrev pub insert_by : A → List A → List A
  insert_by a [] = a ∷ []
  insert_by a (x ∷ xs) = if leb (key a) (key x) then a ∷ x ∷ xs else x ∷ insert_by a xs

  abbrev pub sort_by : List A → List A
  sort_by [] = []
  sort_by (x ∷ xs) = insert_by x (sort_by xs)

  map-insert_by :
      (f : A → A)
      → ((x : A) → key (f x) ≡ key x)
      → (a : A) (xs : List A) → map f (insert_by a xs) ≡ insert_by (f a) (map f xs)
  map-insert_by f h a [] = refl
  map-insert_by f h a (x ∷ xs) = ground (arith, h a, h x, map-insert_by f h a xs)

  pub map-sort_by :
      (f : A → A)
      → ((x : A) → key (f x) ≡ key x)
      → (xs : List A) → map f (sort_by xs) ≡ sort_by (map f xs)
  map-sort_by f h [] = refl
  map-sort_by f h (x ∷ xs) = ground (arith, map-insert_by f h x (sort_by xs), map-sort_by f h xs)
