-- ===== src/System/Operators.antt =====
-- What an operator does with preorders, pickups and shipments keeps the books.
use lucky_draw.Common.{
  ℕ, ◌≡◌, refl, true, false, ◌||◌, String, Option, some, List, [], ◌∷◌, arith, find, ◌==◌,
  update_where, Distinct-updated, Option-cases, inl, inr,
}
use lucky_draw.Model.{Db, Order, OrderItem, OrderStatus, Pickup, Shipment, is_paid, ok}
use lucky_draw.Tx.{Result-cases}
use lucky_draw.Notification.{notify_user}
use lucky_draw.Order.Sound.{is_cancelled}
use lucky_draw.Order.Sound.Cancel.{order_id}
use lucky_draw.Payment.{order_with_id}
use lucky_draw.Payment.Books.{neutral-IsSound, sum_by_id}
use lucky_draw.Shipment.{UpdateShipment, next_status}
use lucky_draw.AdminOrder.Preorders.{Plan, mark, select_targets}
use lucky_draw.AdminOrder.Preorders.Disjoint.{selected-mark}
use lucky_draw.AdminOrder.Pickups.{
  pickup_of, is_completed, completed_order, set_completed, complete_if_waiting, complete_pickup,
}
use lucky_draw.AdminOrder.Pickups.Repeated.{PickupStatus-cases}
use lucky_draw.AdminOrder.Shipments.{advance, update_order_shipment}
use lucky_draw.System.Booked.{IsBooked, IsUntouched, untouched-IsBooked}
use lucky_draw.System.Seats.{announce-IsUntouched}

mark-IsUntouched : (items : List OrderItem) (db : Db) → IsUntouched db (mark items db)
mark-IsUntouched [] db = (refl, refl)
mark-IsUntouched (i ∷ items) db = (refl, refl)

pub select_targets-IsUntouched :
    (product : ℕ) (raw : Option ℕ) (db : Db) {plan : Plan} {db' : Db}
    → select_targets product raw db ≡ ok (plan, db')
    → IsUntouched db db'
select_targets-IsUntouched product raw db {plan = plan} h =
    let (arrival, (planned, written)) = selected-mark product raw db h in
    ground (arith, written, mark-IsUntouched plan.selected db)

pub update_order_shipment-IsUntouched :
    (now order : ℕ) (dto : UpdateShipment) (db : Db) {s : Shipment} {db' : Db}
    → update_order_shipment now order dto db ≡ ok (s, db')
    → IsUntouched db db'
unfolding update_order_shipment
update_order_shipment-IsUntouched now order dto db h =
    elim (Option-cases (find (λ (s : Shipment). s.order_id == order) db.shipments)) [
      | inl e ↦ absurd (ground arith)
      | inr (s, e) ↦ elim (Result-cases (advance now (next_status dto) s)) [
        | inl (moved, m) ↦ ground (arith, announce-IsUntouched order (next_status dto))
        | inr (x, m) ↦ absurd (ground arith)
      ]
    ]

open_not_cancelled :
    (s : OrderStatus) → (is_paid s || is_completed s) ≡ true → is_cancelled s ≡ false
open_not_cancelled OrderStatus.pending_payment h = refl
open_not_cancelled OrderStatus.paid h = refl
open_not_cancelled OrderStatus.drawn h = refl
open_not_cancelled OrderStatus.completed h = refl
open_not_cancelled OrderStatus.cancelled h = absurd (ground arith)
open_not_cancelled OrderStatus.refunded h = refl
open_not_cancelled OrderStatus.failed h = refl

completed-IsBooked :
    (now order : ℕ) (db db' : Db) (o : Order)
    → order_with_id db order ≡ some o
    → (is_paid o.status || is_completed o.status) ≡ true
    → db'.orders ≡ update_where (λ (x : Order). x.id == order) (completed_order now) db.orders
    → db'.kuji_events ≡ db.kuji_events
    → IsBooked db
    → IsBooked db'
completed-IsBooked now order db db' o known open_order orders events (sound, unique) = (
  neutral-IsSound db db' events
      (λ k. rw orders (
        sum_by_id order (completed_order now) (λ x. (refl, refl, refl)) k o db.orders unique known
          (open_not_cancelled o.status open_order)))
      sound,
  rw orders (
      Distinct-updated order_id (λ x. x.id == order) (completed_order now) (λ o. refl) db.orders
        unique),
)

pub complete_pickup-IsBooked :
    (now admin : ℕ) (location : Option String) (order : ℕ) (db : Db) {p : Pickup} {db' : Db}
    → complete_pickup now admin location order db ≡ ok (p, db')
    → IsBooked db
    → IsBooked db'
unfolding complete_pickup complete_if_waiting set_completed notify_user
complete_pickup-IsBooked now admin location order db {db' = db'} h booked =
    elim (Option-cases (order_with_id db order)) [
      | inl e ↦ absurd (ground arith)
      | inr (o, known) ↦ elim (Option-cases (pickup_of db order)) [
        | inl e ↦ absurd (ground arith)
        | inr (was, found) ↦ elim (PickupStatus-cases was.status) [
          | inl e ↦
              completed-IsBooked now order db db' o known (ground arith) (ground arith)
                (ground arith) booked
          | inr (inl e) ↦ untouched-IsBooked db db' (ground arith) booked
          | inr (inr e) ↦ absurd (ground arith)
        ]
      ]
    ]
