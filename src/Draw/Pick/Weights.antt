-- ===== src/Draw/Pick/Weights.antt =====
-- The choice is weighted by what remains: every row has an interval of picks as long as its rest.
use lucky_draw.Common.{
  ℕ, ◌+◌, ◌-◌, ◌≤◌, ◌<◌, ◌≡◌, Bool-cases, inl, inr, some, List, [], ◌∷◌, ◌++◌, arith, ltb,
}
use lucky_draw.Draw.Pick.{TierRow, total_weight, pick_tier}

-- The row behind `before` is picked by the numbers from the weight of `before` on, as many as the
-- row has left.
pub pick_tier-interval :
    (before after : List TierRow) (t : TierRow) (pick : ℕ)
    → total_weight before ≤ pick
    → pick < total_weight before + t.remaining
    → pick_tier pick (before ++ t ∷ after) ≡ some t
unfolding total_weight pick_tier
pick_tier-interval [] after t pick lo hi = ground arith
pick_tier-interval (b ∷ before) after t pick lo hi =
    ground (arith, pick_tier-interval before after t (pick - b.remaining))

-- A number below the total weight picks a row: the fallback is not needed.
pub pick_tier_total :
    (rows : List TierRow) (pick : ℕ)
    → pick < total_weight rows
    → (t : TierRow) × (pick_tier pick rows ≡ some t)
unfolding total_weight pick_tier
pick_tier_total [] pick h = absurd (omega arith)
pick_tier_total (t ∷ rows) pick h = elim (Bool-cases (ltb pick t.remaining)) [
  | inl here ↦ (t, rw here)
  | inr later ↦ rw later (pick_tier_total rows (pick - t.remaining) (ground arith))
]

-- Every row that can be picked by a number in range has something left.
pub pick_tier_pos :
    (rows : List TierRow) (pick : ℕ) {t : TierRow} → pick_tier pick rows ≡ some t → 0 < t.remaining
unfolding pick_tier
pick_tier_pos [] pick {t = u} h = ground arith
pick_tier_pos (t ∷ rows) pick {t = u} h =
    ground (arith, pick_tier_pos rows (pick - t.remaining) {t = u})
