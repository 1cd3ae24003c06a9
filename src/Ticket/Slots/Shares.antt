-- ===== src/Ticket/Slots/Shares.antt =====
-- How many slots each prize tier has, after the checks and after the shuffle.
use lucky_draw.Common.{
  ℕ, zero, suc, ◌+◌, ◌≡◌, ◌↔◌, refl, Bool, ◌&&◌, List, [], ◌∷◌, arith, length, ◌==◌, count_where,
  select, sum_where, All, count_where-append, length-append, if◌then◌else◌,
}
use lucky_draw.Model.{ok}
use lucky_draw.Ticket.Slots.{
  TierSlots, EventSlots, Slot, is_not_last, check_last_prizes, validate_for_slots, slots_of_tier,
  ordered_slots, build_slots,
}
use lucky_draw.Ticket.Slots.Shuffle.{count_where-shuffle_in_place, length-shuffle_in_place}

-- What the tiers with this identifier have to give away at the seats.
abbrev pub tier_share : ℕ → List TierSlots → ℕ
tier_share tier = sum_where (λ t. is_not_last t && t.id == tier) (λ t. t.total_quantity)

abbrev pub has_tier : ℕ → Slot → Bool
has_tier tier s = s.tier_id == tier

count_where-slots_of_tier :
    (tier : ℕ) (t : TierSlots) (i n : ℕ)
    → count_where (has_tier tier) (slots_of_tier t i n) ≡ (if t.id == tier then n else 0)
unfolding slots_of_tier
count_where-slots_of_tier tier t i zero = ground arith
count_where-slots_of_tier tier t i (suc n) =
    ground (arith, count_where-slots_of_tier tier t (i + 1) n)

count_where-ordered_slots :
    (tier : ℕ) (ts : List TierSlots)
    → count_where (has_tier tier) (ordered_slots ts) ≡ tier_share tier ts
unfolding ordered_slots
count_where-ordered_slots tier [] = refl
count_where-ordered_slots tier (t ∷ ts) = ground (
  arith,
  count_where-append (has_tier tier) (slots_of_tier t 0 t.total_quantity) (ordered_slots ts),
  count_where-slots_of_tier tier t 0 t.total_quantity,
  count_where-ordered_slots tier ts,
)

length-slots_of_tier : (t : TierSlots) (i n : ℕ) → length (slots_of_tier t i n) ≡ n
unfolding slots_of_tier
length-slots_of_tier t i zero = refl
length-slots_of_tier t i (suc n) = omega (arith, length-slots_of_tier t (i + 1) n)

length-ordered_slots :
    (ts : List TierSlots)
    → length (ordered_slots ts) ≡ sum_where is_not_last (λ t. t.total_quantity) ts
unfolding ordered_slots
length-ordered_slots [] = refl
length-ordered_slots (t ∷ ts) = ground (
  arith,
  length-append (slots_of_tier t 0 t.total_quantity) (ordered_slots ts),
  length-slots_of_tier t 0 t.total_quantity,
  length-ordered_slots ts,
)

-- Whatever the random numbers, a tier gets exactly its quantity of slots, and the last prize none.
pub count_where-build_slots :
    (tier : ℕ) (random : ℕ → ℕ) (event : EventSlots)
    → count_where (has_tier tier) (build_slots random event) ≡ tier_share tier event.prize_tiers
unfolding build_slots
count_where-build_slots tier random event = omega (
  arith,
  count_where-shuffle_in_place (has_tier tier) random (ordered_slots event.prize_tiers),
  count_where-ordered_slots tier event.prize_tiers,
)

check_last_prizes_iff :
    (ts : List TierSlots) → (check_last_prizes ts ≡ ok tt) ↔ All (λ t. t.total_quantity ≡ 1) ts
unfolding check_last_prizes
check_last_prizes_iff [] = (λ _. tt, λ _. refl)
check_last_prizes_iff (t ∷ ts) =
    let (to, from) = check_last_prizes_iff ts in
    (λ h. ground (arith, to), λ h. ground (arith, from))

-- The checks pass exactly if every last prize has the quantity 1 and the others sum up to the seats.
pub validate_for_slots_iff :
    (event : EventSlots)
    → (validate_for_slots event ≡ ok tt) ↔ (
        All (λ t. t.total_quantity ≡ 1) (select (λ t. t.is_last_prize) event.prize_tiers)
        × (sum_where is_not_last (λ t. t.total_quantity) event.prize_tiers ≡ event.total_tickets))
unfolding validate_for_slots
validate_for_slots_iff event =
    let (to, from) = check_last_prizes_iff (select (λ t. t.is_last_prize) event.prize_tiers) in
    (λ h. ground (arith, to), λ h. ground (arith, from h.0))

-- Once the checks pass there is a slot for each seat.
pub length-build_slots :
    (random : ℕ → ℕ) (event : EventSlots)
    → validate_for_slots event ≡ ok tt
    → length (build_slots random event) ≡ event.total_tickets
unfolding build_slots
length-build_slots random event h = omega (
  arith,
  length-shuffle_in_place random (ordered_slots event.prize_tiers),
  length-ordered_slots event.prize_tiers,
  ((validate_for_slots_iff event).0 h).1,
)
