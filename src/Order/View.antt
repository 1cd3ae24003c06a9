-- ===== src/Order/View.antt =====
-- What a client sees of an order, and the two reads (apps/backend/src/order/order.service.ts:
-- orderSelect, serializeOrder, findOne, list).
use lucky_draw.Common.{ℕ, not, Option, none, some, String, List, ◌==◌, find, select}
use lucky_draw.Model.{
  Db, Order, OrderItem, Pickup, ShippingAddress, OrderStatus, DeliveryMethod, Result, ok, err,
  decrypt_failed, forbidden, not_found, order_not_found,
}
use lucky_draw.Tx.{Tx, gets, or_throw, throw_if, lift, ◌>>=◌, ◌>>◌}
use lucky_draw.Cipher.{Cipher}

pub record OrderView : Type 0 where
  pub id : ℕ
  pub order_number : Option String
  pub kuji_event_id : Option ℕ
  pub ticket_count : ℕ
  pub unit_price : ℕ
  pub total_amount : ℕ
  pub status : OrderStatus
  pub delivery_method : DeliveryMethod
  pub order_items : List OrderItem
  pub pickup : Option Pickup
  pub shipping_snapshot : Option ShippingAddress
  pub created_at : ℕ
  pub paid_at : Option ℕ
  pub drawn_at : Option ℕ
  pub cancelled_at : Option ℕ

abbrev pub order_of : Db → ℕ → Option Order
order_of db id = find (λ (o : Order). o.id == id) db.orders

module _ (cipher : Cipher) where
  -- `decryptJson`, which takes null for null.
  snapshot_view : Option String → Result (Option ShippingAddress)
  snapshot_view none = ok none
  snapshot_view (some json) = elim (cipher.decrypt_json json) [
    | none ↦ err decrypt_failed
    | some a ↦ ok a
  ]

  unfoldable pub serialize_order : Db → Order → Result OrderView
  unfolding snapshot_view
  serialize_order db o = elim (snapshot_view o.shipping_snapshot) [
    | err e ↦ err e
    | ok shipping ↦ ok (record {
      id = o.id;
      order_number = o.order_number;
      kuji_event_id = o.kuji_event_id;
      ticket_count = o.ticket_count;
      unit_price = o.unit_price;
      total_amount = o.total_amount;
      status = o.status;
      delivery_method = o.delivery_method;
      order_items = select (λ (i : OrderItem). i.order_id == o.id) db.order_items;
      pickup = find (λ (p : Pickup). p.order_id == o.id) db.pickups;
      shipping_snapshot = shipping;
      created_at = o.created_at;
      paid_at = o.paid_at;
      drawn_at = o.drawn_at;
      cancelled_at = o.cancelled_at;
    })
  ]

  unfoldable pub find_one : ℕ → ℕ → Tx OrderView
  find_one user id = do
    found ← gets (λ db. order_of db id)
    order ← or_throw found (not_found order_not_found)
    throw_if (not (order.user_id == user)) forbidden
    result ← gets (λ db. serialize_order db order)
    lift result
