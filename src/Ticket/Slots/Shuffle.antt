-- ===== src/Ticket/Slots/Shuffle.antt =====
-- The shuffle of the slots only moves them.
use lucky_draw.Common.{
  ℕ, zero, suc, ◌+◌, ◌-◌, ◌≤◌, ◌≡◌, refl, Bool, some, List, [], ◌∷◌, arith, length, get_elem?, set,
  count_where, if◌then◌else◌, length-set, Option-cases, inl, inr,
}
use lucky_draw.Ticket.Slots.{swap, random_index, shuffle_from, shuffle_in_place}

abbrev one_if : Bool → ℕ
one_if b = if b then 1 else 0

module _ {ℓ} {A : Type ℓ} where
  count_where-set :
      (p : A → Bool) (xs : List A) (i : ℕ) (a v : A)
      → get_elem? xs i ≡ some a
      → count_where p (set xs i v) + one_if (p a) ≡ count_where p xs + one_if (p v)
  count_where-set p [] i a v h = ground arith
  count_where-set p (x ∷ xs) zero a v h = ground arith
  count_where-set p (x ∷ xs) (suc i) a v h = ground (arith, count_where-set p xs i a v h)

  get_elem?-set :
      (xs : List A) (i j : ℕ) (a b : A)
      → get_elem? xs i ≡ some a
      → get_elem? xs j ≡ some b
      → get_elem? (set xs i b) j ≡ some b
  get_elem?-set [] i j a b h k = ground arith
  get_elem?-set (x ∷ xs) zero zero a b h k = refl
  get_elem?-set (x ∷ xs) zero (suc j) a b h k = k
  get_elem?-set (x ∷ xs) (suc i) zero a b h k = k
  get_elem?-set (x ∷ xs) (suc i) (suc j) a b h k = get_elem?-set xs i j a b h k

  count_where-swap :
      (p : A → Bool) (xs : List A) (i j : ℕ) → count_where p (swap xs i j) ≡ count_where p xs
  unfolding swap
  count_where-swap p xs i j = elim (Option-cases (get_elem? xs i)) [
    | inl h ↦ ground arith
    | inr (a, h) ↦ elim (Option-cases (get_elem? xs j)) [
      | inl k ↦ ground arith
      | inr (b, k) ↦ ground (
        arith,
        count_where-set p xs i a b h,
        count_where-set p (set xs i b) j b a (get_elem?-set xs i j a b h k),
      )
    ]
  ]

  count_where-shuffle_from :
      (p : A → Bool) (random : ℕ → ℕ) (i : ℕ) (xs : List A)
      → count_where p (shuffle_from random i xs) ≡ count_where p xs
  unfolding shuffle_from
  count_where-shuffle_from p random zero xs = refl
  count_where-shuffle_from p random (suc i) xs = omega (
    arith,
    count_where-swap p xs (suc i) (random_index random (suc i)),
    count_where-shuffle_from p random i (swap xs (suc i) (random_index random (suc i))),
  )

  -- Whatever the random numbers, the shuffled list has as many elements of every kind.
  pub count_where-shuffle_in_place :
      (p : A → Bool) (random : ℕ → ℕ) (xs : List A)
      → count_where p (shuffle_in_place random xs) ≡ count_where p xs
  unfolding shuffle_in_place
  count_where-shuffle_in_place p random xs = count_where-shuffle_from p random (length xs - 1) xs

module _ {ℓ} {A : Type ℓ} where
  length-swap : (xs : List A) (i j : ℕ) → length (swap xs i j) ≡ length xs
  unfolding swap
  length-swap xs i j = elim (Option-cases (get_elem? xs i)) [
    | inl h ↦ ground arith
    | inr (a, h) ↦ elim (Option-cases (get_elem? xs j)) [
      | inl k ↦ ground arith
      | inr (b, k) ↦ ground (arith, length-set xs i b, length-set (set xs i b) j a)
    ]
  ]

  length-shuffle_from :
      (random : ℕ → ℕ) (i : ℕ) (xs : List A) → length (shuffle_from random i xs) ≡ length xs
  unfolding shuffle_from
  length-shuffle_from random zero xs = refl
  length-shuffle_from random (suc i) xs = omega (
    arith,
    length-swap xs (suc i) (random_index random (suc i)),
    length-shuffle_from random i (swap xs (suc i) (random_index random (suc i))),
  )

  pub length-shuffle_in_place :
      (random : ℕ → ℕ) (xs : List A) → length (shuffle_in_place random xs) ≡ length xs
  unfolding shuffle_in_place
  length-shuffle_in_place random xs = length-shuffle_from random (length xs - 1) xs

-- The index that is drawn in a round lies among the elements not yet placed.
pub random_index-le : (random : ℕ → ℕ) (i : ℕ) → random_index random i ≤ i
unfolding random_index
random_index-le random i = grind arith
