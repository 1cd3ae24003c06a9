-- ===== src/Order/Cancel.antt =====
-- Cancelling an order that waits for its payment (apps/backend/src/order/order.service.ts: cancel).
pub mod Effect
use lucky_draw.Common.{
  ℕ, ◌-◌, Bool, not, ◌&&◌, Option, none, some, ◌==◌, if◌then◌else◌, find, count_where, update_where,
}
use lucky_draw.Model.{
  Db, KujiEvent, Order, OrderStatus, is_pending_payment, Result, ok, err, forbidden, conflict,
  not_found, service_unavailable, order_not_found, cannot_cancel, state_changed_concurrently,
}
use lucky_draw.Tx.{Tx, pure, gets, or_throw, modify, throw_if, ◌>>=◌, ◌>>◌}
use lucky_draw.Cipher.{Cipher}
use lucky_draw.Stock.{Counters, release}
use lucky_draw.Order.View.{OrderView, order_of, serialize_order}

abbrev pub is_order : ℕ → Order → Bool
is_order id o = o.id == id

abbrev pub is_waiting_order : ℕ → Order → Bool
is_waiting_order id o = o.id == id && is_pending_payment o.status

abbrev pub cancelled : ℕ → Order → Order
cancelled now o = record o { status = OrderStatus.cancelled; cancelled_at = some now }

abbrev pub unsell : ℕ → KujiEvent → KujiEvent
unsell count e = record e { sold_tickets = e.sold_tickets - count }

-- The update of the event, if the order has one. The column is signed; the invariant of the books
-- keeps the difference from going below 0.
restore : Option ℕ → ℕ → Tx (Unit {0})
restore none count = pure tt
restore (some kuji) count = modify (λ db. record db {
  kuji_events = update_where (λ (e : KujiEvent). e.id == kuji) (unsell count) db.kuji_events;
})

unfoldable pub cancel_tx : ℕ → ℕ → ℕ → Tx (Option Order)
unfolding restore
cancel_tx now user id = do
  found ← gets (λ db. order_of db id)
  order ← or_throw found (not_found order_not_found)
  throw_if (not (order.user_id == user)) forbidden
  throw_if (not (is_pending_payment order.status)) (conflict (cannot_cancel order.status))
  updated ← gets (λ db. count_where (is_waiting_order id) db.orders)
  modify (λ db. record db { orders = update_where (is_waiting_order id) (cancelled now) db.orders })
  throw_if (updated == 0) (conflict state_changed_concurrently)
  restore order.kuji_event_id order.ticket_count
  gets (λ db. order_of db id)

-- `if (result.kujiEventId) await this.stock.release(…)`
release_for : Bool → Option ℕ → ℕ → Counters → Counters
release_for answers none count c = c
release_for answers (some kuji) count c = release answers kuji count c

module _ (cipher : Cipher) where
  -- What follows the transaction.
  finish : Bool → Counters → Option Order × Db → Result OrderView × Db × Counters
  unfolding release_for
  finish answers c (none, db) = (err (service_unavailable order_not_found), db, c)
  finish answers c (some o, db) =
      (serialize_order cipher db o, db, release_for answers o.kuji_event_id o.ticket_count c)

  unfoldable pub cancel : Bool → ℕ → ℕ → ℕ → Db → Counters → Result OrderView × Db × Counters
  unfolding finish
  cancel answers now user id db c = elim (cancel_tx now user id db) [
    | err e ↦ (err e, db, c)
    | ok done ↦ finish answers c done
  ]
