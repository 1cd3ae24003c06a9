-- ===== src/Payment/Refund.antt =====
-- An operator gives the money back (apps/backend/src/payment/payment.service.ts: refundByAdmin).
pub mod Guard
use lucky_draw.Common.{
  ℕ, Bool, true, false, not, Option, none, some, String, List, ◌==◌, find, update_where,
  if◌then◌else◌,
}
use lucky_draw.Model.{
  Db, Order, OrderStatus, Payment, PaymentStatus, Shipment, ShipmentStatus, is_paid_or_drawn,
  is_payment_refunded, is_shipment_pending, Error, Result, ok, err, not_found, conflict, internal,
  order_not_found, no_payment, cannot_refund, already_refunded, shipment_in_progress,
  no_provider_tx_id, payment_not_found,
}
use lucky_draw.Tx.{Tx, pure, throw, gets, or_throw, modify, throw_if, lift, ◌>>=◌, ◌>>◌}
use lucky_draw.Payment.{PaymentView, order_with_id, payment_of, serialize_payment}

abbrev pub shipment_of : Db → ℕ → Option Shipment
shipment_of db order = find (λ (s : Shipment). s.order_id == order) db.shipments

abbrev pub refunded_payment : ℕ → ℕ → String → Payment → Payment
refunded_payment refunded_at admin reason p = record p {
  status = PaymentStatus.refunded;
  refunded_at = some refunded_at;
  refund_reason = some reason;
  refunded_by_admin_id = some admin;
}

abbrev pub refunded_order : Order → Order
refunded_order o = record o { status = OrderStatus.refunded }

abbrev pub cancelled_shipment : Shipment → Shipment
cancelled_shipment s = record s { status = ShipmentStatus.cancelled }

-- The update of the shipment that was read before.
abbrev cancel_shipment : Option Shipment → List Shipment → List Shipment
cancel_shipment none ss = ss
cancel_shipment (some s) ss = update_where (λ (x : Shipment). x.id == s.id) cancelled_shipment ss

-- What is known before the provider gives the money back.
pub record Refundable : Type 0 where
  pub order : Order
  pub payment : Payment
  pub provider_tx_id : ℕ
  pub shipment : Option Shipment

-- `if (!order.payment.providerTxId)`
abbrev pub check_tx_id : Order → Payment → Option Shipment → Option ℕ → Result Refundable
check_tx_id o p shipment none = err (conflict no_provider_tx_id)
check_tx_id o p shipment (some id) =
    ok (record { order = o; payment = p; provider_tx_id = id; shipment = shipment })

abbrev pub check_shipment : Order → Payment → Option Shipment → Option Shipment → Result Refundable
check_shipment o p shipment none = check_tx_id o p shipment p.provider_tx_id
check_shipment o p shipment (some s) =
    if not (is_shipment_pending s.status)
    then err (conflict (shipment_in_progress s.status))
    else check_tx_id o p shipment p.provider_tx_id

unfoldable pub check_payment : Order → Payment → Option Shipment → Result Refundable
check_payment o p shipment =
    if not (is_paid_or_drawn o.status)
    then err (conflict (cannot_refund o.status))
    else if is_payment_refunded p.status
    then err (conflict already_refunded)
    else check_shipment o p shipment shipment

unfoldable pub check_refund : ℕ → Tx Refundable
unfolding check_payment
check_refund order = do
  found ← gets (λ db. order_with_id db order)
  o ← or_throw found (not_found order_not_found)
  payment ← gets (λ db. payment_of db order)
  p ← or_throw payment (conflict no_payment)
  shipment ← gets (λ db. shipment_of db order)
  lift (check_payment o p shipment)

-- The transaction behind the provider's answer.
unfoldable pub refund_tx : ℕ → ℕ → String → ℕ → Option Shipment → Tx (Unit {0})
refund_tx admin order reason refunded_at shipment = do
  found ← gets (λ db. order_with_id db order)
  o ← or_throw found (not_found order_not_found)
  throw_if (not (is_paid_or_drawn o.status)) (conflict (cannot_refund o.status))
  modify (λ db. record db {
    payments =
        update_where (λ (p : Payment). p.order_id == order)
          (refunded_payment refunded_at admin reason) db.payments;
    orders = update_where (λ (x : Order). x.id == order) refunded_order db.orders;
    shipments = cancel_shipment shipment db.shipments;
  })

pub record Refunded : Type 0 where
  pub payment : PaymentView
  pub previous_order_status : OrderStatus

-- `refund_external` is the provider's call, for its transaction and the amount.
unfoldable pub refund : (ℕ → ℕ → Result ℕ) → ℕ → ℕ → String → Tx Refunded
unfolding check_refund refund_tx
refund refund_external admin order reason = do
  checked ← check_refund order
  refunded_at ← lift (refund_external checked.provider_tx_id checked.payment.amount)
  refund_tx admin order reason refunded_at checked.shipment
  refreshed ← gets (λ db. payment_of db order)
  p ← or_throw refreshed (internal payment_not_found)
  pure (record { payment = serialize_payment p; previous_order_status = checked.order.status })
