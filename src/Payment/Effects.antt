-- ===== src/Payment/Effects.antt =====
-- What follows a payment (apps/backend/src/payment/payment.service.ts: applyPaidOrderEffects):
-- the queue numbers of preorders, the shipment, and the notifications.
pub mod Frame
pub mod Queue
pub mod Numbered
use lucky_draw.Common.{
  ℕ, ◌+◌, Bool, true, false, not, ◌&&◌, Option, none, some, List, [], ◌∷◌, ◌==◌, ◌=?◌, is_none,
  or_zero, find, select, update_where, max_where, if◌then◌else◌,
}
use lucky_draw.Model.{
  Db, Order, OrderItem, Product, ProductType, Shipment, ShipmentStatus, MessageType, DeliveryMethod,
  is_general, is_shipping, is_shipment_pending, not_found, order_not_found,
}
use lucky_draw.Tx.{Tx, pure, gets, or_throw, modify, ◌>>=◌, ◌>>◌}
use lucky_draw.Notification.{notify_user}
use lucky_draw.Payment.{order_with_id}

abbrev is_preorder : Option Product → Bool
is_preorder none = false
is_preorder (some p) = not (is_general p.type)

abbrev product_of : Db → Option ℕ → Option Product
product_of db none = none
product_of db (some id) = find (λ (p : Product). p.id == id) db.products

abbrev pub is_preorder_item : Db → ℕ → OrderItem → Bool
is_preorder_item db order i = i.order_id == order && is_preorder (product_of db i.product_id)

-- The other items of this product; the aggregate skips those without a number.
abbrev pub is_rival : ℕ → ℕ → OrderItem → Bool
is_rival product id i = i.product_id =? product && not (i.id == id)

abbrev pub paid_sequence : OrderItem → Option ℕ
paid_sequence i = i.paid_sequence

abbrev pub next_sequence : List OrderItem → ℕ → ℕ → ℕ
next_sequence items product id = or_zero (max_where (is_rival product id) paid_sequence items) + 1

abbrev pub give_sequence : ℕ → ℕ → List OrderItem → List OrderItem
give_sequence id n items =
    update_where (λ (i : OrderItem). i.id == id)
      (λ (i : OrderItem). record i { paid_sequence = some n }) items

-- The body of the loop over the preordered items, and the loop.
abbrev number_for : Option ℕ → OrderItem → List OrderItem → List OrderItem
number_for none item items = items
number_for (some product) item items =
    if not (is_none item.paid_sequence)
    then items
    else give_sequence item.id (next_sequence items product item.id) items

unfoldable pub number_items : List OrderItem → List OrderItem → List OrderItem
number_items [] items = items
number_items (item ∷ rest) items = number_items rest (number_for item.product_id item items)

abbrev pub is_pending_shipment : ℕ → Shipment → Bool
is_pending_shipment order s = s.order_id == order && is_shipment_pending s.status

abbrev pub prepare : Shipment → Shipment
prepare s = record s { status = ShipmentStatus.preparing }

unfoldable pub prepare_shipments : DeliveryMethod → ℕ → Db → Db
prepare_shipments DeliveryMethod.shipping order db = record db {
  shipments = update_where (is_pending_shipment order) prepare db.shipments;
}
prepare_shipments DeliveryMethod.pickup order db = db

unfoldable pub announce_pickup : DeliveryMethod → ℕ → Db → Db
unfolding notify_user
announce_pickup DeliveryMethod.shipping order db = db
announce_pickup DeliveryMethod.pickup order db = notify_user none order MessageType.pickup_ready db

unfoldable pub apply_paid_order_effects : ℕ → Tx (Unit {0})
unfolding number_items prepare_shipments announce_pickup notify_user
apply_paid_order_effects order = do
  found ← gets (λ db. order_with_id db order)
  o ← or_throw found (not_found order_not_found)
  preorder_items ← gets (λ db. select (is_preorder_item db order) db.order_items)
  modify (λ db. record db { order_items = number_items preorder_items db.order_items })
  modify (prepare_shipments o.delivery_method order)
  modify (notify_user none order MessageType.payment_completed)
  modify (announce_pickup o.delivery_method order)
