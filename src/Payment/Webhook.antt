-- ===== src/Payment/Webhook.antt =====
-- The provider's own report on a payment (apps/backend/src/payment/payment.service.ts: webhook).
use lucky_draw.Common.{ℕ, not, ◌&&◌, Option, none, some, ◌=?◌, find, update_where}
use lucky_draw.Model.{
  Db, Order, OrderStatus, Payment, PaymentMethod, ProviderName, is_paid, is_pending_payment, Result,
  ok, err, not_found, conflict, unique_violation, order_not_found, order_not_payable,
}
use lucky_draw.Tx.{Tx, pure, gets, or_throw, modify, throw_if, ◌>>=◌, ◌>>◌}
use lucky_draw.Cipher.{Cipher}
use lucky_draw.Payment.{
  WebhookEvent, WebhookStatus, order_with_id, payment_of, insert_payment, paid_payment, is_payable,
  paid_order, payment_if,
}
use lucky_draw.Payment.Effects.{apply_paid_order_effects}
use lucky_draw.Payment.Confirm.{DrawCall, auto_draw}

-- The answers to the provider.
pub data WebhookAnswer : Type 0 where
  processed : ℕ → WebhookAnswer
  already_processed : Option ℕ → WebhookAnswer
  order_failed : WebhookAnswer

abbrev pub failed_order : Order → Order
failed_order o = record o { status = OrderStatus.failed }

-- The update of the order after a report that is not PAID.
abbrev pub fail_order : ℕ → Db → Db
fail_order order db = record db { orders = update_where (is_payable order) failed_order db.orders }

module _ (provider : ProviderName) (fresh now : ℕ) (event : WebhookEvent) where
  unfoldable pub new_payment : Order → Payment
  new_payment o =
      paid_payment fresh provider o.id event.provider_tx_id o.total_amount PaymentMethod.card now

  unfoldable pub record_webhook : Order → Tx Payment
  unfolding new_payment insert_payment apply_paid_order_effects
  record_webhook o = do
    throw_if (not (is_pending_payment o.status) && not (is_paid o.status))
        (conflict (order_not_payable o.status))
    created ← insert_payment (new_payment o)
    modify (λ db. record db { orders = update_where (is_payable o.id) (paid_order now) db.orders })
    apply_paid_order_effects o.id
    pure created

  unfoldable pub payment_or_webhook : Order → Option Payment → Tx Payment
  unfolding record_webhook
  payment_or_webhook o (some existing) = pure existing
  payment_or_webhook o none = record_webhook o

  -- The transaction.
  unfoldable pub webhook_tx : Tx Payment
  unfolding payment_or_webhook
  webhook_tx = do
    found ← gets (λ db. order_with_id db event.order_id)
    o ← or_throw found (not_found order_not_found)
    existing ← gets (λ db. payment_of db o.id)
    payment_or_webhook o (payment_if (is_paid o.status) existing)

abbrev id_of : Option Payment → Option ℕ
id_of none = none
id_of (some p) = some p.id

module _ (cipher : Cipher) (call : DrawCall) (provider : ProviderName) (fresh now : ℕ) where
  draw_for_owner : Option Order → ℕ → Db → Db
  unfolding auto_draw
  draw_for_owner none order db = db
  draw_for_owner (some o) order db = (auto_draw cipher call o.user_id order db).1

  after_tx : WebhookEvent → Result (Payment × Db) → Db → Result WebhookAnswer × Db
  unfolding draw_for_owner
  after_tx event (ok (p, db')) db =
      (ok (processed p.id), draw_for_owner (order_with_id db' p.order_id) p.order_id db')
  after_tx event (err unique_violation) db =
      (ok (already_processed (id_of (payment_of db event.order_id))), db)
  after_tx event (err e) db = (err e, db)

  new_event : WebhookEvent → WebhookStatus → Db → Result WebhookAnswer × Db
  unfolding after_tx webhook_tx
  new_event event WebhookStatus.paid db = after_tx event (webhook_tx provider fresh now event db) db
  new_event event _ db = (ok order_failed, fail_order event.order_id db)

  verified : WebhookEvent → Option Payment → Db → Result WebhookAnswer × Db
  unfolding new_event
  verified event (some p) db = (ok (already_processed (some p.id)), db)
  verified event none db = new_event event event.status db

  -- `verify_webhook` is the provider's check of the signature.
  unfoldable pub webhook : Result WebhookEvent → Db → Result WebhookAnswer × Db
  unfolding verified
  webhook (err e) db = (err e, db)
  webhook (ok event) db =
      verified event (find (λ (p : Payment). p.provider_tx_id =? event.provider_tx_id) db.payments)
        db
