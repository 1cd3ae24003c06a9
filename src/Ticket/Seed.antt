-- ===== src/Ticket/Seed.antt =====
-- Dealing out the seats of an event (apps/backend/src/ticket/ticket.service.ts: seedForKuji,
-- reshuffleForKuji).
pub mod Deal
use lucky_draw.Common.{
  ℕ, ◌+◌, Bool, not, ◌||◌, none, List, [], ◌∷◌, ◌++◌, map, ltb, ◌==◌, length, find, select,
  count_where, ◌&&◌,
}
use lucky_draw.Model.{
  Db, KujiEvent, PrizeTier, PrizeItem, Ticket, TicketStatus, is_reserved, is_sold, conflict,
  not_found, kuji_not_found, tickets_exist, seats_in_use,
}
use lucky_draw.Tx.{Tx, pure, gets, or_throw, modify, throw_if, lift, ◌>>=◌, ◌>>◌}
use lucky_draw.Ticket.Slots.{TierSlots, EventSlots, Slot, validate_for_slots, build_slots}

-- The query's `prizeTiers: { include: { prizeItems } }`.
abbrev pub tier_slots : Db → PrizeTier → TierSlots
tier_slots db pt = record {
  id = pt.id;
  total_quantity = pt.total_quantity;
  is_last_prize = pt.is_last_prize;
  prize_items =
      map (λ (i : PrizeItem). i.id)
        (select (λ (i : PrizeItem). i.prize_tier_id == pt.id) db.prize_items);
}

abbrev pub event_slots : Db → KujiEvent → EventSlots
event_slots db ev = record {
  total_tickets = ev.total_tickets;
  prize_tiers =
      map (tier_slots db) (select (λ (pt : PrizeTier). pt.kuji_event_id == ev.id) db.prize_tiers);
}

abbrev pub is_of_kuji : ℕ → Ticket → Bool
is_of_kuji kuji t = t.kuji_event_id == kuji

unfoldable pub load_event : ℕ → Tx EventSlots
load_event kuji = do
  ev ← gets (λ db. find (λ (e : KujiEvent). e.id == kuji) db.kuji_events)
  e ← or_throw ev (not_found kuji_not_found)
  gets (λ db. event_slots db e)

-- `slots.map((s, idx) => …)`, from index `idx` on; `fresh` gives the rows their identifiers.
rows_from : (ℕ → ℕ) → ℕ → ℕ → List Slot → List Ticket
rows_from fresh kuji idx [] = []
rows_from fresh kuji idx (s ∷ slots) =
    record {
      id = fresh idx;
      kuji_event_id = kuji;
      position = idx + 1;
      prize_tier_id = s.tier_id;
      prize_item_id = s.item_id;
      status = TicketStatus.available;
      reserved_by_user_id = none;
      reserved_at = none;
      reserve_expires_at = none;
      order_id = none;
    }
    ∷ rows_from fresh kuji (idx + 1) slots

module _ (fresh random : ℕ → ℕ) (kuji : ℕ) where
  unfoldable pub seed_for_kuji : Tx ℕ
  unfolding load_event rows_from
  seed_for_kuji = do
    event ← load_event kuji
    existing ← gets (λ db. count_where (is_of_kuji kuji) db.tickets)
    throw_if (ltb 0 existing) (conflict tickets_exist)
    lift (validate_for_slots event)
    let rows = rows_from fresh kuji 0 (build_slots random event)
    modify (λ db. record db { tickets = db.tickets ++ rows })
    pure (length rows)

  unfoldable pub reshuffle_for_kuji : Tx ℕ
  unfolding load_event rows_from
  reshuffle_for_kuji = do
    event ← load_event kuji
    blocking ← gets (λ db.
        count_where (λ t. is_of_kuji kuji t && (is_sold t.status || is_reserved t.status))
          db.tickets)
    throw_if (ltb 0 blocking) (conflict seats_in_use)
    lift (validate_for_slots event)
    modify (λ db. record db { tickets = select (λ t. not (is_of_kuji kuji t)) db.tickets })
    let rows = rows_from fresh kuji 0 (build_slots random event)
    modify (λ db. record db { tickets = db.tickets ++ rows })
    pure (length rows)
