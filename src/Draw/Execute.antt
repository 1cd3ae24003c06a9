-- ===== src/Draw/Execute.antt =====
-- Drawing an order (apps/backend/src/draw/draw.service.ts: execute, executeForTickets). The
-- transaction reads the order under a lock, as the check before it does; both read the same tables
-- here, so that the second reading of the order's state decides.
pub mod Tickets
pub mod Once
use lucky_draw.Common.{
  ℕ, zero, suc, ◌+◌, Bool, true, false, not, ◌&&◌, String, Option, none, some, List, [], ◌∷◌, ◌++◌,
  ltb, ◌==◌, ◌=?◌, find, count_where, update_where, select, sort_by, length, if◌then◌else◌,
}
use lucky_draw.Model.{
  Db, Order, Ticket, TicketStatus, PrizeTier, PrizeItem, DrawResult, Algorithm, OrderStatus,
  is_paid, is_drawn, conflict, not_found, forbidden, order_not_found, order_not_drawable,
  sales_order_not_drawable, order_has_no_tickets, state_changed_concurrently,
}
use lucky_draw.Tx.{Tx, pure, throw, gets, or_throw, modify, throw_if, ◌>>=◌, ◌>>◌}
use lucky_draw.Cipher.{Cipher}
use lucky_draw.Shipment.{create_for_order}
use lucky_draw.Draw.Result.{
  Drawn, Summary, load_results, insert_result, is_last_prize_order, tier_with_id,
}
use lucky_draw.Draw.Inventory.{Draw, draw_one, item_of_tier}

abbrev pub is_ticket_of : ℕ → Ticket → Bool
is_ticket_of order t = t.order_id =? order

abbrev pub is_ticket_of_kuji : ℕ → ℕ → Ticket → Bool
is_ticket_of_kuji order kuji t = t.order_id =? order && t.kuji_event_id == kuji

abbrev pub position : Ticket → ℕ
position t = t.position

-- The rows that the update of the order changes, and what it makes of them.
abbrev pub is_paid_order : ℕ → Order → Bool
is_paid_order order o = o.id == order && is_paid o.status

abbrev pub drawn_order : ℕ → Order → Order
drawn_order now o = record o { status = OrderStatus.drawn; drawn_at = some now }

abbrev pub sell_seat : Ticket → Ticket
sell_seat t = record t {
  status = TicketStatus.sold;
  reserved_by_user_id = none;
  reserved_at = none;
  reserve_expires_at = none;
}

abbrev pub ticket_drawn : Db → ℕ → Ticket → Drawn
ticket_drawn db index t = record {
  ticket_index = index;
  tier_id = t.prize_tier_id;
  tier = tier_with_id db t.prize_tier_id;
  prize_item_id = t.prize_item_id;
}

abbrev pub sell_ticket : ℕ → List Ticket → List Ticket
sell_ticket id ts = update_where (λ (x : Ticket). x.id == id) sell_seat ts

module _ (cipher : Cipher) (now fresh_shipment : ℕ) (order : Order) where
  -- The end of both transactions: the order becomes a drawn one, and gets its shipment.
  unfoldable pub finish : List Drawn → Tx Summary
  unfolding create_for_order
  finish drawn = do
    updated ← gets (λ db. count_where (is_paid_order order.id) db.orders)
    modify (λ db. record db {
      orders = update_where (is_paid_order order.id) (drawn_order now) db.orders;
    })
    throw_if (updated == 0) (conflict state_changed_concurrently)
    create_for_order cipher fresh_shipment order.id order.shipping_snapshot
    pure (record { order_id = order.id; ticket_count = length drawn; results = drawn })

abbrev pub is_last_tier : ℕ → PrizeTier → Bool
is_last_tier kuji pt = pt.kuji_event_id == kuji && pt.is_last_prize

module _ (user kuji : ℕ) (order : Order) where
  abbrev pub ticket_row : ℕ → Ticket → DrawResult
  ticket_row index t = record {
    order_id = order.id;
    user_id = user;
    kuji_event_id = kuji;
    ticket_index = index;
    prize_tier_id = t.prize_tier_id;
    prize_item_id = t.prize_item_id;
    algorithm = Algorithm.preassigned;
  }

  -- The body of the loop over the tickets, and the loop.
  abbrev pub draw_ticket : ℕ → Ticket → Tx (Unit {0})
  draw_ticket index t = do
    insert_result (ticket_row index t)
    modify (λ db. record db { tickets = sell_ticket t.id db.tickets })

  unfoldable pub draw_tickets : ℕ → List Ticket → Tx (List Drawn)
  unfolding insert_result
  draw_tickets index [] = pure []
  draw_tickets index (t ∷ ts) = do
    let rest = draw_tickets (index + 1) ts
    draw_ticket index t
    shown ← gets (λ db. ticket_drawn db index t)
    drawn ← rest
    pure (shown ∷ drawn)

  unfoldable pub give_bonus : ℕ → Option PrizeTier → Tx (List Drawn)
  unfolding insert_result
  give_bonus index none = pure []
  give_bonus index (some pt) = do
    item ← gets (λ db. item_of_tier db pt.id)
    insert_result (record {
      order_id = order.id;
      user_id = user;
      kuji_event_id = kuji;
      ticket_index = index;
      prize_tier_id = pt.id;
      prize_item_id = item;
      algorithm = Algorithm.last_prize_bonus;
    })
    pure (
        record { ticket_index = index; tier_id = pt.id; tier = some pt; prize_item_id = item } ∷ [])

  unfoldable pub bonus : ℕ → Bool → Tx (List Drawn)
  unfolding give_bonus
  bonus index false = pure []
  bonus index true = do
    last_tier ← gets (λ db. find (is_last_tier kuji) db.prize_tiers)
    give_bonus index last_tier

-- The loop of the first flow: `left` tickets are left, and the next one has this index.
unfoldable pub draw_each : Draw → Bool → ℕ → ℕ → Tx (List Drawn)
unfolding draw_one
draw_each d last zero index = pure []
draw_each d last (suc left) index = do
  let rest = draw_each d last left (index + 1)
  chosen ← draw_one d index (last && left == 0)
  drawn ← rest
  pure (chosen ∷ drawn)

module _ (cipher : Cipher) (now fresh_shipment user kuji : ℕ) (order : Order) where
  -- The flow in which the seats already know their prizes.
  unfoldable pub execute_for_tickets : Tx Summary
  unfolding draw_tickets bonus finish is_last_prize_order
  execute_for_tickets = do
    tickets ← gets (λ db. sort_by position (select (is_ticket_of order.id) db.tickets))
    throw_if (length tickets == 0) (conflict order_has_no_tickets)
    drawn ← draw_tickets user kuji order 1 tickets
    last ← gets (is_last_prize_order kuji order.id)
    more ← bonus user kuji order (length tickets + 1) last
    finish cipher now fresh_shipment order (drawn ++ more)

  -- The first flow: each ticket is drawn against the inventories, and the last ticket of the last
  -- order gets the last prize.
  unfoldable pub execute_for_inventory : Draw → Tx Summary
  unfolding draw_each finish is_last_prize_order
  execute_for_inventory d = do
    last ← gets (is_last_prize_order kuji order.id)
    drawn ← draw_each d last order.ticket_count 1
    finish cipher now fresh_shipment order drawn

module _ (cipher : Cipher) (now fresh_shipment : ℕ) (draw_random : ℕ → ℕ → ℕ) (others : ℕ → Db → Db)
    (user : ℕ) where
  unfoldable pub execute_for : ℕ → Order → Tx Summary
  unfolding execute_for_tickets execute_for_inventory
  execute_for kuji o = do
    has_tickets ← gets (λ db. count_where (is_ticket_of_kuji o.id kuji) db.tickets)
    (if ltb 0 has_tickets
        then execute_for_tickets cipher now fresh_shipment user kuji o
        else execute_for_inventory cipher now fresh_shipment user kuji o (record {
          kuji = kuji;
          order = o.id;
          user = user;
          draw_random = draw_random;
          others = others;
        }))

  unfoldable pub execute_paid : Order → Tx Summary
  unfolding execute_for
  execute_paid o = do
    throw_if (not (is_paid o.status)) (conflict (order_not_drawable o.status))
    kuji ← or_throw o.kuji_event_id (conflict sales_order_not_drawable)
    execute_for kuji o

  unfoldable pub execute : ℕ → Tx Summary
  unfolding execute_paid load_results
  execute order = do
    found ← gets (λ db. find (λ (o : Order). o.id == order) db.orders)
    o ← or_throw found (not_found order_not_found)
    throw_if (not (o.user_id == user)) forbidden
    (if is_drawn o.status then gets (load_results order) else execute_paid o)
