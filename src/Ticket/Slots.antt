-- ===== src/Ticket/Slots.antt =====
-- The checks on an event's tiers, the slots that they give, and the shuffle
-- (apps/backend/src/ticket/ticket.service.ts: validateForSlots, buildSlots, shuffleInPlace).
pub mod Shuffle
pub mod Shares
use lucky_draw.Common.{
  ℕ, zero, suc, ◌+◌, ◌-◌, ◌*◌, ◌/◌, ◌%◌, ◌^◌, Bool, not, Option, none, some, List, [], ◌∷◌, ◌++◌,
  ◌==◌, if◌then◌else◌, length, get_elem?, set, select, sum_where,
}
use lucky_draw.Model.{Result, ok, err, bad_request, last_prize_quantity, tier_sum_mismatch}

-- A prize tier with the identifiers of its items, and the event, as the queries load them.
pub record TierSlots : Type 0 where
  pub id : ℕ
  pub total_quantity : ℕ
  pub is_last_prize : Bool
  pub prize_items : List ℕ

pub record EventSlots : Type 0 where
  pub total_tickets : ℕ
  pub prize_tiers : List TierSlots

pub record Slot : Type 0 where
  pub tier_id : ℕ
  pub item_id : Option ℕ

abbrev pub is_not_last : TierSlots → Bool
is_not_last t = not t.is_last_prize

check_last_prizes : List TierSlots → Result (Unit {0})
check_last_prizes [] = ok tt
check_last_prizes (t ∷ ts) =
    let rest = check_last_prizes ts in
    if not (t.total_quantity == 1) then err (bad_request last_prize_quantity) else rest

unfoldable pub validate_for_slots : EventSlots → Result (Unit {0})
unfolding check_last_prizes
validate_for_slots event =
    elim (check_last_prizes (select (λ t. t.is_last_prize) event.prize_tiers)) [
      | err e ↦ err e
      | ok _ ↦
          if not
            (sum_where is_not_last (λ t. t.total_quantity) event.prize_tiers == event.total_tickets)
          then err (bad_request tier_sum_mismatch)
          else ok tt
    ]

-- `t.prizeItems[i % t.prizeItems.length]`, if the tier has items.
item_at : List ℕ → ℕ → Option ℕ
item_at [] i = none
item_at (x ∷ xs) i = get_elem? (x ∷ xs) (i % length (x ∷ xs))

-- The inner loop, at round `i` with `n` rounds to go.
slots_of_tier : TierSlots → ℕ → ℕ → List Slot
slots_of_tier t i zero = []
slots_of_tier t i (suc n) =
    record { tier_id = t.id; item_id = item_at t.prize_items i } ∷ slots_of_tier t (i + 1) n

ordered_slots : List TierSlots → List Slot
ordered_slots [] = []
ordered_slots (t ∷ ts) =
    let rest = ordered_slots ts in
    if t.is_last_prize then rest else slots_of_tier t 0 t.total_quantity ++ rest

module _ {ℓ} {A : Type ℓ} where
  exchange : List A → ℕ → ℕ → Option A → Option A → List A
  exchange xs i j (some a) (some b) = set (set xs i b) j a
  exchange xs i j _ _ = xs

  -- The exchange of `arr[i]` and `arr[j]`; both are in range.
  swap : List A → ℕ → ℕ → List A
  unfolding exchange
  swap xs i j = exchange xs i j (get_elem? xs i) (get_elem? xs j)

-- `random i` is the 32-bit number read in round `i`. `Math.floor(r / 2 ** 32 * (i + 1))` in doubles
-- is this quotient of integers as long as `i + 1` fits 21 bits.
pub random_index : (ℕ → ℕ) → ℕ → ℕ
random_index random i = (random i % 2 ^ 32) * (i + 1) / 2 ^ 32

module _ {ℓ} {A : Type ℓ} where
  shuffle_from : (ℕ → ℕ) → ℕ → List A → List A
  shuffle_from random zero xs = xs
  shuffle_from random (suc i) xs =
      shuffle_from random i (swap xs (suc i) (random_index random (suc i)))

  pub shuffle_in_place : (ℕ → ℕ) → List A → List A
  unfolding shuffle_from swap random_index
  shuffle_in_place random xs = shuffle_from random (length xs - 1) xs

unfoldable pub build_slots : (ℕ → ℕ) → EventSlots → List Slot
unfolding ordered_slots slots_of_tier item_at shuffle_in_place
build_slots random event = shuffle_in_place random (ordered_slots event.prize_tiers)
