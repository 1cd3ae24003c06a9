-- ===== src/Payment.antt =====
-- Payments (apps/backend/src/payment/payment.service.ts). The provider is the client of an external
-- service: what its calls answer is an argument.
pub mod Effects
pub mod Confirm
pub mod Webhook
pub mod Refund
pub mod Deposit
pub mod Books
use lucky_draw.Common.{
  ℕ, Bool, true, false, ◌&&◌, ◌||◌, Option, none, some, List, [], ◌∷◌, ◌++◌, ltb, ◌==◌, ◌=?◌, find,
  count_where,
}
use lucky_draw.Model.{
  Db, Order, OrderStatus, Payment, ProviderName, PaymentMethod, PaymentStatus, is_pending_payment,
  unique_violation,
}
use lucky_draw.Tx.{Tx, pure, gets, modify, throw_if, ◌>>=◌, ◌>>◌}

abbrev pub order_with_id : Db → ℕ → Option Order
order_with_id db order = find (λ (o : Order). o.id == order) db.orders

abbrev pub payment_of : Db → ℕ → Option Payment
payment_of db order = find (λ (p : Payment). p.order_id == order) db.payments

-- What the client sees of a payment.
pub record PaymentView : Type 0 where
  pub id : ℕ
  pub order_id : ℕ
  pub provider : ProviderName
  pub provider_tx_id : Option ℕ
  pub amount : ℕ
  pub status : PaymentStatus
  pub method : Option PaymentMethod
  pub paid_at : Option ℕ

abbrev pub serialize_payment : Payment → PaymentView
serialize_payment p = record {
  id = p.id;
  order_id = p.order_id;
  provider = p.provider;
  provider_tx_id = p.provider_tx_id;
  amount = p.amount;
  status = p.status;
  method = p.method;
  paid_at = p.paid_at;
}

abbrev pub same_tx_id : Option ℕ → Payment → Bool
same_tx_id none p = false
same_tx_id (some id) p = p.provider_tx_id =? id

abbrev pub is_clash : Payment → Payment → Bool
is_clash p x = x.order_id == p.order_id || same_tx_id p.provider_tx_id x

-- `payment.create`; the columns `orderId` and `providerTxId` are unique.
unfoldable pub insert_payment : Payment → Tx Payment
insert_payment p = do
  same ← gets (λ db. count_where (is_clash p) db.payments)
  throw_if (ltb 0 same) unique_violation
  modify (λ db. record db { payments = db.payments ++ p ∷ [] })
  pure p

-- What the provider's client answers (apps/backend/src/payment/providers/payment-provider.ts).
pub record ConfirmResult : Type 0 where
  pub provider_tx_id : ℕ
  pub amount : ℕ
  pub method : Option PaymentMethod
  pub paid_at : ℕ

pub data WebhookStatus : Type 0 where
  paid failed cancelled : WebhookStatus

pub record WebhookEvent : Type 0 where
  pub provider_tx_id : ℕ
  pub order_id : ℕ
  pub status : WebhookStatus

-- A payment that the provider has confirmed.
abbrev pub paid_payment : ℕ → ProviderName → ℕ → ℕ → ℕ → PaymentMethod → ℕ → Payment
paid_payment id provider order tx_id amount method paid_at = record {
  id = id;
  order_id = order;
  provider = provider;
  provider_tx_id = some tx_id;
  amount = amount;
  status = PaymentStatus.paid;
  method = some method;
  depositor_name = none;
  confirmed_at = none;
  confirmed_by_admin_id = none;
  paid_at = some paid_at;
  refunded_at = none;
  refund_reason = none;
  refunded_by_admin_id = none;
}

-- The update of a waiting order to a paid one.
abbrev pub is_payable : ℕ → Order → Bool
is_payable order o = o.id == order && is_pending_payment o.status

abbrev pub paid_order : ℕ → Order → Order
paid_order paid_at o = record o { status = OrderStatus.paid; paid_at = some paid_at }

-- Of a paid order the payment that it has, of any other order none.
abbrev pub payment_if : Bool → Option Payment → Option Payment
payment_if true p = p
payment_if false p = none
