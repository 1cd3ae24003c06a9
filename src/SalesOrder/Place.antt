-- ===== src/SalesOrder/Place.antt =====
-- Placing an order of products around its transaction: the cached response, the lock, the
-- idempotency key and the answer (apps/backend/src/sales-order/sales-order.service.ts: create,
-- createTransactional, orderSelect, serializeOrder).
use lucky_draw.Common.{
  ℕ, Bool, true, false, not, String, Option, none, some, List, ◌==◌, if◌then◌else◌, find, select,
}
use lucky_draw.Model.{
  Db, Order, OrderItem, Payment, PaymentStatus, PaymentMethod, ProviderName, Shipment,
  ShipmentStatus, Pickup, PickupStatus, ShippingAddress, OrderStatus, DeliveryMethod, Error, Result,
  ok, err, conflict, unique_violation, decrypt_failed, idempotency_key_conflict,
  duplicate_in_flight,
}
use lucky_draw.Cipher.{Cipher}
use lucky_draw.Payment.{payment_of}
use lucky_draw.Order.Place.{order_with_key, set_at}
use lucky_draw.SalesOrder.Write.{SalesRequest, CreateSalesOrder, create_tx}

pub record PaymentSummary : Type 0 where
  pub id : ℕ
  pub provider : ProviderName
  pub method : Option PaymentMethod
  pub status : PaymentStatus
  pub amount : ℕ
  pub depositor_name : Option String

-- `decryptJson` gives back any JSON; `some none` is one that is no address.
pub record SalesOrderView : Type 0 where
  pub id : ℕ
  pub user_id : ℕ
  pub order_number : Option String
  pub kuji_event_id : Option ℕ
  pub ticket_count : ℕ
  pub unit_price : ℕ
  pub total_amount : ℕ
  pub status : OrderStatus
  pub delivery_method : DeliveryMethod
  pub shipping_snapshot : Option (Option ShippingAddress)
  pub created_at : ℕ
  pub paid_at : Option ℕ
  pub cancelled_at : Option ℕ
  pub order_items : List OrderItem
  pub payment : Option PaymentSummary
  pub shipment : Option (ℕ × ShipmentStatus)
  pub pickup : Option (ℕ × PickupStatus)

abbrev payment_summary : Option Payment → Option PaymentSummary
payment_summary none = none
payment_summary (some p) = some (record {
  id = p.id;
  provider = p.provider;
  method = p.method;
  status = p.status;
  amount = p.amount;
  depositor_name = p.depositor_name;
})

abbrev shipment_summary : Option Shipment → Option (ℕ × ShipmentStatus)
shipment_summary none = none
shipment_summary (some s) = some (s.id, s.status)

abbrev pickup_summary : Option Pickup → Option (ℕ × PickupStatus)
pickup_summary none = none
pickup_summary (some p) = some (p.id, p.status)

pub record SalesResponse : Type 0 where
  pub status : ℕ
  pub body : SalesOrderView

abbrev pub SalesOutcome : Type 0
SalesOutcome = Result SalesResponse × Db

module _ (cipher : Cipher) where
  abbrev decrypt_snapshot : Option String → Result (Option (Option ShippingAddress))
  decrypt_snapshot none = ok none
  decrypt_snapshot (some json) = elim (cipher.decrypt_json json) [
    | none ↦ err decrypt_failed
    | some a ↦ ok (some a)
  ]

  -- `serializeOrder`, with the status of the response.
  unfoldable pub answer : ℕ → Db → Order → Result SalesResponse
  answer status db o = elim (decrypt_snapshot o.shipping_snapshot) [
    | err e ↦ err e
    | ok shipping ↦ ok (record {
      status = status;
      body = record {
        id = o.id;
        user_id = o.user_id;
        order_number = o.order_number;
        kuji_event_id = o.kuji_event_id;
        ticket_count = o.ticket_count;
        unit_price = o.unit_price;
        total_amount = o.total_amount;
        status = o.status;
        delivery_method = o.delivery_method;
        shipping_snapshot = shipping;
        created_at = o.created_at;
        paid_at = o.paid_at;
        cancelled_at = o.cancelled_at;
        order_items = select (λ (i : OrderItem). i.order_id == o.id) db.order_items;
        payment = payment_summary (payment_of db o.id);
        shipment = shipment_summary (find (λ (s : Shipment). s.order_id == o.id) db.shipments);
        pickup = pickup_summary (find (λ (p : Pickup). p.order_id == o.id) db.pickups);
      };
    })
  ]

-- The database, and in Redis the cached responses and the locks by user and key.
pub record SalesWorld : Type 0 where
  pub db : Db
  pub cache : ℕ → ℕ → Option SalesResponse
  pub lock : ℕ → ℕ → Bool

-- `others` is what other requests commit between the look-up of the key and the transaction;
-- `cached_late` what another request with the key has put into the cache between the look-ups there.
module _ (cipher : Cipher) (r : SalesRequest) (dto : CreateSalesOrder) (others : Db → Db)
    (cached_late : Option SalesResponse) where
  -- The `catch` on P2002.
  abbrev duplicate : Db → Option Order → Result SalesResponse
  duplicate db none = err unique_violation
  duplicate db (some dup) =
      if dup.user_id == r.user then answer cipher 200 db dup else err unique_violation

  abbrev on_error : Db → Error → Result SalesResponse
  on_error db unique_violation = duplicate db (order_with_key r.key db)
  on_error db e = err e

  abbrev settle : Db → Result (Order × Db) → SalesOutcome
  settle before (ok (order, db)) = (answer cipher 201 db order, db)
  settle before (err e) = (on_error before e, before)

  unfoldable pub unless_known : Option Order → Db → SalesOutcome
  unfolding create_tx answer
  unless_known none db = settle (others db) (create_tx cipher r dto (others db))
  unless_known (some o) db =
      if not (o.user_id == r.user)
      then (err (conflict idempotency_key_conflict), db)
      else (answer cipher 200 db o, db)

  unfoldable pub create_transactional : Db → SalesOutcome
  unfolding unless_known
  create_transactional db = unless_known (order_with_key r.key db) db

  abbrev unlock : SalesWorld → SalesWorld
  unlock w = record w { lock = set_at w.lock r.user r.key false }

  abbrev finish : SalesWorld → SalesOutcome → Result SalesResponse × SalesWorld
  finish w (ok response, db) = (
    ok response,
    unlock (record w { db = db; cache = set_at w.cache r.user r.key (some response) }),
  )
  finish w (err e, db) = (err e, unlock (record w { db = db }))

  -- The second look into the cache answers without writing it again.
  unfoldable pub with_lock : SalesWorld → Option SalesResponse → Result SalesResponse × SalesWorld
  unfolding create_transactional
  with_lock w (some response) =
      (ok response, unlock (record w { cache = set_at w.cache r.user r.key (some response) }))
  with_lock w none = finish w (create_transactional w.db)

  unfoldable pub take_lock : SalesWorld → Bool → Result SalesResponse × SalesWorld
  unfolding with_lock
  take_lock w true = (err (conflict duplicate_in_flight), w)
  take_lock w false = with_lock (record w { lock = set_at w.lock r.user r.key true }) cached_late

  unfoldable pub unless_cached :
      SalesWorld → Option SalesResponse → Result SalesResponse × SalesWorld
  unfolding take_lock
  unless_cached w (some response) = (ok response, w)
  unless_cached w none = take_lock w (w.lock r.user r.key)

  unfoldable pub create : SalesWorld → Result SalesResponse × SalesWorld
  unfolding unless_cached
  create w = unless_cached w (w.cache r.user r.key)
