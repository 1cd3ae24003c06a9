-- ===== src/AdminOrder/Pickups.antt =====
-- An order is picked up (apps/backend/src/payment/admin-order.controller.ts: completePickup).
pub mod Repeated
use lucky_draw.Common.{
  ℕ, Bool, true, false, not, ◌&&◌, ◌||◌, String, Option, none, some, List, [], ◌∷◌, ◌==◌,
  if◌then◌else◌, find, update_where,
}
use lucky_draw.Model.{
  Db, Order, OrderStatus, Pickup, PickupStatus, MessageType, is_paid, is_shipping, conflict,
  not_found, order_not_found, not_pickup_order, pickup_not_found, pickup_in_order_status,
  pickup_in_status,
}
use lucky_draw.Tx.{Tx, pure, throw, gets, or_throw, modify, throw_if, ◌>>=◌, ◌>>◌}
use lucky_draw.Notification.{notify_user}
use lucky_draw.Payment.{order_with_id}

abbrev pub pickup_of : Db → ℕ → Option Pickup
pickup_of db order = find (λ (p : Pickup). p.order_id == order) db.pickups

abbrev pub is_completed : OrderStatus → Bool
is_completed OrderStatus.completed = true
is_completed _ = false

-- `dto.location ?? order.pickup.location`
abbrev or_old : Option String → Option String → Option String
or_old none old = old
or_old (some new) old = some new

abbrev pub picked_up : ℕ → ℕ → Option String → Pickup → Pickup
picked_up now admin location p = record p {
  status = PickupStatus.completed;
  location = or_old location p.location;
  picked_up_at = some now;
  confirmed_by_admin_id = some admin;
}

abbrev pub completed_order : ℕ → Order → Order
completed_order now o = record o { status = OrderStatus.completed; completed_at = some now }

module _ (now admin : ℕ) (location : Option String) (order : ℕ) where
  -- The two updates, of the pickup and of the order.
  unfoldable pub set_completed : Pickup → Db → Db
  set_completed p db = record db {
    pickups =
        update_where (λ (x : Pickup). x.id == p.id) (λ _. picked_up now admin location p)
          db.pickups;
    orders = update_where (λ (x : Order). x.id == order) (completed_order now) db.orders;
  }

  -- A pickup that is completed already is the answer.
  unfoldable pub complete_if_waiting : PickupStatus → Pickup → Tx Pickup
  unfolding set_completed notify_user
  complete_if_waiting PickupStatus.completed p = pure p
  complete_if_waiting PickupStatus.cancelled p =
      throw (conflict (pickup_in_status PickupStatus.cancelled))
  complete_if_waiting PickupStatus.waiting p = do
    modify (set_completed p)
    modify (notify_user none order MessageType.pickup_completed)
    pure (picked_up now admin location p)

  -- The transaction.
  unfoldable pub complete_pickup : Tx Pickup
  unfolding complete_if_waiting
  complete_pickup = do
    found ← gets (λ db. order_with_id db order)
    o ← or_throw found (not_found order_not_found)
    throw_if (is_shipping o.delivery_method) (conflict not_pickup_order)
    pickup ← gets (λ db. pickup_of db order)
    p ← or_throw pickup (not_found pickup_not_found)
    throw_if (not (is_paid o.status) && not (is_completed o.status))
        (conflict (pickup_in_order_status o.status))
    complete_if_waiting p.status p
