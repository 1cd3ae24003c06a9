-- ===== src/Draw/Pick.antt =====
-- The weighted choice of a prize tier (apps/backend/src/draw/draw.service.ts: the loop of
-- drawOneWithCAS over the tiers).
pub mod Weights
use lucky_draw.Common.{ℕ, ◌+◌, ◌-◌, Option, none, some, List, [], ◌∷◌, ltb, if◌then◌else◌}
use lucky_draw.Model.{PrizeTier, Inventory}

-- A row of the query that joins the tiers with their inventories.
pub record TierRow : Type 0 where
  pub tier : PrizeTier
  pub inventory_id : ℕ
  pub remaining : ℕ
  pub version : ℕ

unfoldable pub total_weight : List TierRow → ℕ
total_weight [] = 0
total_weight (t ∷ ts) = t.remaining + total_weight ts

unfoldable pub pick_tier : ℕ → List TierRow → Option TierRow
pick_tier pick [] = none
pick_tier pick (t ∷ ts) =
    let rest = pick_tier (pick - t.remaining) ts in if ltb pick t.remaining then some t else rest

abbrev last_of : TierRow → List TierRow → TierRow
last_of t [] = t
last_of t (u ∷ us) = last_of u us

unfoldable pub or_last : Option TierRow → TierRow → List TierRow → TierRow
or_last (some t) first rest = t
or_last none first rest = last_of first rest

-- With the fallback to the last row. The list is given by its first row and the rest.
unfoldable pub choose_tier : ℕ → TierRow → List TierRow → TierRow
unfolding pick_tier or_last
choose_tier pick first rest = or_last (pick_tier pick (first ∷ rest)) first rest
