-- ===== src/Common/Tables.antt =====
-- A database table as the list of its rows, with the queries that the services make.
use Prim.Native.Nat.{ℕ, suc, ◌+◌, max}
use mathlib.Core.Path.{◌≡◌, refl}
use mathlib.Core.Bool.{Bool, true}
use mathlib.Core.Logic.{◌⊎◌, inl, inr}
use mathlib.Core.List.{List, [], ◌∷◌, ◌++◌}
use mathlib.Core.Option.{Option, none, some}
use native.Mathlib.Omega.{arith}
use lucky_draw.Common.Tests.{if◌then◌else◌, Bool-cases}
use lucky_draw.Common.Lists.{length}

-- The larger of two nullable numbers.
abbrev pub max_option : Option ℕ → Option ℕ → Option ℕ
max_option none b = b
max_option (some a) none = some a
max_option (some a) (some b) = some (max a b)

module _ {ℓ} {A : Type ℓ} where
  -- `findUnique` and `findFirst`: the first row that fits.
  abbrev pub find : (A → Bool) → List A → Option A
  find p [] = none
  find p (x ∷ xs) = if p x then some x else find p xs

  -- `findMany`
  abbrev pub select : (A → Bool) → List A → List A
  select p [] = []
  select p (x ∷ xs) = let rest = select p xs in if p x then x ∷ rest else rest

  -- `count`, and the number of rows that an `UPDATE` with this condition affects.
  abbrev pub count_where : (A → Bool) → List A → ℕ
  count_where p [] = 0
  count_where p (x ∷ xs) = let rest = count_where p xs in if p x then suc rest else rest

  -- `UPDATE … SET f WHERE p`
  abbrev pub update_where : (A → Bool) → (A → A) → List A → List A
  update_where p f [] = []
  update_where p f (x ∷ xs) = (if p x then f x else x) ∷ update_where p f xs

  -- `SUM(f) WHERE p`
  abbrev pub sum_where : (A → Bool) → (A → ℕ) → List A → ℕ
  sum_where p f [] = 0
  sum_where p f (x ∷ xs) = let rest = sum_where p f xs in if p x then f x + rest else rest

  -- `MAX(f) WHERE p`, null if there is no row with a value.
  abbrev pub max_where : (A → Bool) → (A → Option ℕ) → List A → Option ℕ
  max_where p f [] = none
  max_where p f (x ∷ xs) =
      let rest = max_where p f xs in if p x then max_option (f x) rest else rest

  pub count_where-append :
      (p : A → Bool) (xs ys : List A)
      → count_where p (xs ++ ys) ≡ count_where p xs + count_where p ys
  count_where-append p [] ys = omega arith
  count_where-append p (x ∷ xs) ys = ground (arith, count_where-append p xs ys)

  pub sum_where-append :
      (p : A → Bool) (f : A → ℕ) (xs ys : List A)
      → sum_where p f (xs ++ ys) ≡ sum_where p f xs + sum_where p f ys
  sum_where-append p f [] ys = omega arith
  sum_where-append p f (x ∷ xs) ys = ground (arith, sum_where-append p f xs ys)

  pub length-update_where :
      (p : A → Bool) (f : A → A) (xs : List A) → length (update_where p f xs) ≡ length xs
  length-update_where p f [] = refl
  length-update_where p f (x ∷ xs) = omega (arith, length-update_where p f xs)

  pub length-select : (p : A → Bool) (xs : List A) → length (select p xs) ≡ count_where p xs
  length-select p [] = refl
  length-select p (x ∷ xs) = ground (arith, length-select p xs)

-- The tables before and after a write, row by row.
abbrev pub Pointwise {ℓ} : {A : Type ℓ} → (A → A → Type 0) → List A → List A → Type 0
Pointwise R [] [] = Unit
Pointwise R [] (y ∷ ys) = ⊥
Pointwise R (x ∷ xs) [] = ⊥
Pointwise R (x ∷ xs) (y ∷ ys) = R x y × Pointwise R xs ys

-- A row of which `P` holds becomes `f` of it, and any other row stays as it was.
abbrev pub Rewrites : {A : Type 0} → (A → Type 0) → (A → A) → A → A → Type 0
Rewrites P f x y = (P x × (y ≡ f x)) ⊎ (¬ P x × (y ≡ x))

module _ {A : Type 0} (P : A → Type 0) (p : A → Bool) (f g : A → A) (same : (x : A) → g x ≡ f x)
    (sound : (x : A) → p x ≡ true → P x) (complete : (x : A) → P x → p x ≡ true) where
  pub update_where-Rewrites : (xs : List A) → Pointwise (Rewrites P f) xs (update_where p g xs)
  update_where-Rewrites [] = tt
  update_where-Rewrites (x ∷ xs) = elim (Bool-cases (p x)) [
    | inl e ↦ rw e (inl (sound x e, same x), update_where-Rewrites xs)
    | inr e ↦
        rw e (inr (λ h. absurd (ground (arith, complete x h)), refl), update_where-Rewrites xs)
  ]
