-- ===== src/Draw/Inventory.antt =====
-- Drawing one ticket against the inventories (apps/backend/src/draw/draw.service.ts:
-- drawOneWithCAS). Between the query of the tiers and the update of an inventory other transactions
-- may commit: `others attempt` is what they did to the tables in that gap.
pub mod Cas
pub mod Undisturbed
use lucky_draw.Common.{
  ℕ, zero, suc, ◌+◌, ◌-◌, Bool, true, false, not, ◌&&◌, Option, none, some, List, [], ◌∷◌, ◌++◌,
  ltb, ◌==◌, find, count_where, update_where, select, if◌then◌else◌,
}
use lucky_draw.Model.{
  Db, PrizeTier, PrizeItem, Inventory, DrawResult, Algorithm, Error, Result, ok, err, conflict,
  internal, last_prize_unavailable, all_tiers_sold_out, cas_contention,
}
use lucky_draw.Tx.{Tx, pure, throw, gets, modify, ◌>>=◌, ◌>>◌}
use lucky_draw.Draw.Pick.{TierRow, total_weight, choose_tier}
use lucky_draw.Draw.Result.{Drawn, insert_result}

abbrev pub cas_max_retries : ℕ
cas_max_retries = 5

abbrev pub same_bool : Bool → Bool → Bool
same_bool true b = b
same_bool false b = not b

abbrev pub is_candidate : ℕ → Bool → PrizeTier → Bool
is_candidate kuji award pt = pt.kuji_event_id == kuji && same_bool pt.is_last_prize award

abbrev pub joined : PrizeTier → Inventory → TierRow
joined pt i = record {
  tier = pt;
  inventory_id = i.id;
  remaining = i.remaining_quantity;
  version = i.version;
}

-- The rows of one tier.
unfoldable pub rows_of_tier : PrizeTier → List Inventory → List TierRow
rows_of_tier pt [] = []
rows_of_tier pt (i ∷ is) =
    let rest = rows_of_tier pt is in
    if i.prize_tier_id == pt.id && ltb 0 i.remaining_quantity then joined pt i ∷ rest else rest

-- The query: the candidates among the tiers joined with the inventories that are not empty.
unfoldable pub tier_rows : ℕ → Bool → List PrizeTier → List Inventory → List TierRow
unfolding rows_of_tier
tier_rows kuji award [] invs = []
tier_rows kuji award (pt ∷ pts) invs =
    let rest = tier_rows kuji award pts invs in
    if is_candidate kuji award pt then rows_of_tier pt invs ++ rest else rest

abbrev pub is_unchanged : TierRow → Inventory → Bool
is_unchanged t i = i.id == t.inventory_id && i.version == t.version && ltb 0 i.remaining_quantity

abbrev pub take_one : Inventory → Inventory
take_one i = record i { remaining_quantity = i.remaining_quantity - 1; version = i.version + 1 }

-- The update under the version: the number of rows that it changed.
unfoldable pub compare_and_take : TierRow → Tx ℕ
compare_and_take t db = ok (
  count_where (is_unchanged t) db.inventories,
  record db { inventories = update_where (is_unchanged t) take_one db.inventories },
)

abbrev item_id : Option PrizeItem → Option ℕ
item_id none = none
item_id (some item) = some item.id

abbrev pub item_of_tier : Db → ℕ → Option ℕ
item_of_tier db tier = item_id (find (λ (x : PrizeItem). x.prize_tier_id == tier) db.prize_items)

abbrev pub algorithm_of : Bool → Algorithm
algorithm_of true = Algorithm.last_prize
algorithm_of false = Algorithm.weighted_remaining

abbrev pub sold_out_error : Bool → Error
sold_out_error true = conflict last_prize_unavailable
sold_out_error false = conflict all_tiers_sold_out

-- What is drawn, by whom and how: `draw_random total attempt` is `Math.floor(rand * totalWeight)`
-- for the random number of that attempt.
pub record Draw : Type 0 where
  pub kuji : ℕ
  pub order : ℕ
  pub user : ℕ
  pub draw_random : ℕ → ℕ → ℕ
  pub others : ℕ → Db → Db

module _ (d : Draw) (index : ℕ) (award : Bool) where
  abbrev pub result_row : TierRow → Option ℕ → DrawResult
  result_row t item = record {
    order_id = d.order;
    user_id = d.user;
    kuji_event_id = d.kuji;
    ticket_index = index;
    prize_tier_id = t.tier.id;
    prize_item_id = item;
    algorithm = algorithm_of award;
  }

  abbrev pub drawn_row : TierRow → Option ℕ → Drawn
  drawn_row t item = record {
    ticket_index = index;
    tier_id = t.tier.id;
    tier = some t.tier;
    prize_item_id = item;
  }

  -- What follows a successful update.
  unfoldable pub award_tier : TierRow → Tx Drawn
  unfolding insert_result
  award_tier t = do
    item ← gets (λ db. item_of_tier db t.tier.id)
    insert_result (result_row t item)
    pure (drawn_row t item)

  -- One update, and `retry` if it changed no row.
  abbrev pub take_or_retry : TierRow → Tx Drawn → ℕ → Tx Drawn
  take_or_retry t retry zero = retry
  take_or_retry t retry (suc _) = award_tier t

  abbrev pub attempt_with : ℕ → Tx Drawn → List TierRow → Tx Drawn
  attempt_with attempt retry [] = throw (sold_out_error award)
  attempt_with attempt retry (t ∷ ts) = do
    let chosen = choose_tier (d.draw_random (total_weight (t ∷ ts)) attempt) t ts
    modify (d.others attempt)
    affected ← compare_and_take chosen
    take_or_retry chosen retry affected

  -- The loop: `left` attempts are left, and `attempt` of them are over.
  unfoldable pub attempts : ℕ → ℕ → Tx Drawn
  unfolding tier_rows total_weight choose_tier compare_and_take award_tier
  attempts zero attempt = throw (internal cas_contention)
  attempts (suc left) attempt =
      let retry = attempts left (attempt + 1) in
      gets (λ db. tier_rows d.kuji award db.prize_tiers db.inventories)
      >>= attempt_with attempt retry

  unfoldable pub draw_one : Tx Drawn
  unfolding attempts
  draw_one = attempts cas_max_retries 0
