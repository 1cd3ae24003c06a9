-- ===== src/Payment/Effects/Queue.antt =====
-- The queue numbers of preorders.
use lucky_draw.Common.{
  or_zero, ℕ, ◌+◌, ◌≤◌, ◌≡◌, refl, Bool, Bool-cases, inl, inr, false, not, ◌&&◌, Distinct, contains,
  map, Option, none, some, List, [], ◌∷◌, arith, leb, ◌==◌, ◌=?◌, count_where, max_where,
  max_option,
}
use lucky_draw.Model.{OrderItem}
use lucky_draw.Payment.Effects.{give_sequence, is_rival, paid_sequence}

-- Numbered with `n` or a later number.
abbrev pub is_from : ℕ → Option ℕ → Bool
is_from n none = false
is_from n (some k) = leb n k

max_option-lt :
    (n : ℕ) (a b : Option ℕ)
    → is_from n (max_option a b) ≡ false
    → (is_from n a ≡ false) × (is_from n b ≡ false)
max_option-lt n none none h = (refl, refl)
max_option-lt n none (some y) h = ground arith
max_option-lt n (some x) none h = ground arith
max_option-lt n (some x) (some y) h = ground arith

pub none_from :
    (n : ℕ) (p : OrderItem → Bool) (items : List OrderItem)
    → is_from n (max_where p paid_sequence items) ≡ false
    → count_where (λ i. p i && is_from n i.paid_sequence) items ≡ 0
none_from n p [] h = refl
none_from n p (i ∷ items) h =
    ground (
      arith,
      none_from n p items,
      max_option-lt n i.paid_sequence (max_where p paid_sequence items),
    )

pub beyond : (m : Option ℕ) → is_from (or_zero m + 1) m ≡ false
beyond none = refl
beyond (some k) = ground arith

abbrev pub by_id : OrderItem → ℕ
by_id i = i.id

abbrev pub has_id : ℕ → OrderItem → Bool
has_id id i = i.id == id

-- An item of the product with this number.
abbrev pub has_number : ℕ → ℕ → OrderItem → Bool
has_number product n i = i.product_id =? product && i.paid_sequence =? n

-- No two items of a product have the same number.
abbrev pub IsNumbered : List OrderItem → Type 0
IsNumbered items = (product n : ℕ) → count_where (has_number product n) items ≤ 1

-- The rows of an item name its product.
abbrev pub IsKnown : List OrderItem → OrderItem → Type 0
IsKnown items item =
    (product : ℕ)
    → item.product_id ≡ some product
    → count_where (λ i. has_id item.id i && not (i.product_id =? product)) items ≡ 0

none_with_id :
    (id : ℕ) (items : List OrderItem)
    → contains (map by_id items) id ≡ false
    → count_where (has_id id) items ≡ 0
none_with_id id [] h = refl
none_with_id id (i ∷ items) h = ground (arith, none_with_id id items)

one_with_id :
    (id : ℕ) (items : List OrderItem) → Distinct by_id items → count_where (has_id id) items ≤ 1
one_with_id id [] d = omega arith
one_with_id id (i ∷ items) d = ground (arith, one_with_id id items d.1, none_with_id id items)

module _ (id product n : ℕ) where
  -- A number of another queue, or another number, is not given.
  others_after :
      (k m : ℕ) (items : List OrderItem)
      → (k == product && m == n) ≡ false
      → count_where (λ i. has_id id i && not (i.product_id =? product)) items ≡ 0
      → count_where (has_number k m) (give_sequence id n items) ≤ count_where (has_number k m) items
  others_after k m [] e known = omega arith
  others_after k m (i ∷ items) e known = ground (arith, others_after k m items e)

  -- The number that is given is then that of the item and of the rivals that had it.
  given_after :
      (items : List OrderItem)
      → count_where (has_number product n) (give_sequence id n items)
        ≤ count_where (has_id id) items
          + count_where (λ i. is_rival product id i && is_from n i.paid_sequence) items
  given_after [] = omega arith
  given_after (i ∷ items) = ground (arith, given_after items)

  pub give_sequence-IsNumbered :
      (items : List OrderItem)
      → Distinct by_id items
      → count_where (λ i. has_id id i && not (i.product_id =? product)) items ≡ 0
      → count_where (λ i. is_rival product id i && is_from n i.paid_sequence) items ≡ 0
      → IsNumbered items
      → IsNumbered (give_sequence id n items)
  give_sequence-IsNumbered items unique known fresh before k m =
      elim (Bool-cases (k == product && m == n)) [
        | inr other ↦ omega (arith, others_after k m items other known, before k m)
        | inl this ↦ ground (arith, given_after items, one_with_id id items unique)
      ]

  pub known_after :
      (other p : ℕ) (items : List OrderItem)
      → count_where (λ i. has_id other i && not (i.product_id =? p)) (give_sequence id n items)
        ≡ count_where (λ i. has_id other i && not (i.product_id =? p)) items
  known_after other p [] = refl
  known_after other p (i ∷ items) = ground (arith, known_after other p items)
