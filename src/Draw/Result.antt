-- ===== src/Draw/Result.antt =====
-- The result of a draw as the client sees it (apps/backend/src/draw/draw.service.ts: loadResults,
-- findByOrder, isLastPrizeOrder).
use lucky_draw.Common.{
  ℕ, Bool, false, not, ◌&&◌, Option, none, some, List, [], ◌∷◌, ◌++◌, map, ltb, ◌==◌, ◌=?◌, find,
  select, sort_by, count_where, length, if◌then◌else◌,
}
use lucky_draw.Model.{
  Db, KujiEvent, Order, PrizeTier, DrawResult, is_paid_or_drawn, forbidden, not_found,
  order_not_found, unique_violation,
}
use lucky_draw.Tx.{Tx, gets, or_throw, modify, throw_if, ◌>>=◌, ◌>>◌}

-- `tier` is the joined row, which a foreign key holds in place: its rank, name, last-prize mark and
-- animation are what the client is shown.
pub record Drawn : Type 0 where
  pub ticket_index : ℕ
  pub tier_id : ℕ
  pub tier : Option PrizeTier
  pub prize_item_id : Option ℕ

pub record Summary : Type 0 where
  pub order_id : ℕ
  pub ticket_count : ℕ
  pub results : List Drawn

abbrev pub tier_with_id : Db → ℕ → Option PrizeTier
tier_with_id db tier = find (λ (pt : PrizeTier). pt.id == tier) db.prize_tiers

abbrev pub is_of_order : ℕ → DrawResult → Bool
is_of_order order d = d.order_id == order

abbrev pub by_ticket_index : DrawResult → ℕ
by_ticket_index d = d.ticket_index

abbrev pub shown : Db → DrawResult → Drawn
shown db d = record {
  ticket_index = d.ticket_index;
  tier_id = d.prize_tier_id;
  tier = tier_with_id db d.prize_tier_id;
  prize_item_id = d.prize_item_id;
}

unfoldable pub load_results : ℕ → Db → Summary
load_results order db =
    let rows = sort_by by_ticket_index (select (is_of_order order) db.draw_results) in
    record { order_id = order; ticket_count = length rows; results = map (shown db) rows }

-- `drawResult.create`; the pair of order and ticket index is unique.
unfoldable pub insert_result : DrawResult → Tx (Unit {0})
insert_result d = do
  same ← gets (λ db.
      count_where (λ (x : DrawResult). x.order_id == d.order_id && x.ticket_index == d.ticket_index)
        db.draw_results)
  throw_if (ltb 0 same) unique_violation
  modify (λ db. record db { draw_results = db.draw_results ++ d ∷ [] })

unfoldable pub find_by_order : ℕ → ℕ → Tx Summary
unfolding load_results
find_by_order user order = do
  found ← gets (λ db. find (λ (o : Order). o.id == order) db.orders)
  o ← or_throw found (not_found order_not_found)
  throw_if (not (o.user_id == user)) forbidden
  gets (load_results order)

-- `orderBy: { createdAt: 'desc' }`, `findFirst`: the latest order, of equals the first in the table.
abbrev later : Order → Option Order → Option Order
later o none = some o
later o (some best) = if ltb o.created_at best.created_at then some best else some o

latest : List Order → Option Order
latest [] = none
latest (o ∷ os) = later o (latest os)

abbrev is_contender : ℕ → Order → Bool
is_contender kuji o = o.kuji_event_id =? kuji && is_paid_or_drawn o.status

abbrev is_this : ℕ → Option Order → Bool
is_this order none = false
is_this order (some o) = o.id == order

sold_out_and_latest : ℕ → ℕ → Option KujiEvent → Db → Bool
unfolding latest
sold_out_and_latest kuji order none db = false
sold_out_and_latest kuji order (some ev) db =
    if not (ev.sold_tickets == ev.total_tickets)
    then false
    else is_this order (latest (select (is_contender kuji) db.orders))

unfoldable pub is_last_prize_order : ℕ → ℕ → Db → Bool
unfolding sold_out_and_latest
is_last_prize_order kuji order db =
    sold_out_and_latest kuji order (find (λ (e : KujiEvent). e.id == kuji) db.kuji_events) db
