-- ===== src/Payment/Books/Report.antt =====
-- The provider's report keeps the books of the events.
use lucky_draw.Common.{
  ℕ, ◌≡◌, Option, none, some, [], ◌∷◌, ◌++◌, sum_where, update_where, arith, Option-cases, inl, inr,
}
use lucky_draw.Model.{Db, Order, Payment, ProviderName, is_paid, ok}
use lucky_draw.Tx.{Result-cases}
use lucky_draw.Order.Sound.{IsSound, is_counted, quantity}
use lucky_draw.Payment.{
  WebhookEvent, is_payable, paid_order, order_with_id, payment_of, insert_payment, payment_if,
}
use lucky_draw.Payment.Effects.{apply_paid_order_effects}
use lucky_draw.Payment.Effects.Frame.{apply_paid_order_effects-IsBookkeeping}
use lucky_draw.Payment.Webhook.{webhook_tx, new_payment, payment_or_webhook, record_webhook}
use lucky_draw.Payment.Books.{neutral-IsSound, sum_paid}

module _ (provider : ProviderName) (fresh now : ℕ) (event : WebhookEvent) where
  pub record_webhook-sum :
      (o : Order) (db db' : Db) (p : Payment)
      → record_webhook provider fresh now event o db ≡ ok (p, db')
      → (db'.orders ≡ update_where (is_payable o.id) (paid_order now) db.orders)
        × (db'.kuji_events ≡ db.kuji_events)
  unfolding record_webhook insert_payment
  record_webhook-sum o db db' p h =
      let marked = record db {
        payments = db.payments ++ new_payment provider fresh now event o ∷ [];
        orders = update_where (is_payable o.id) (paid_order now) db.orders;
      } in
      elim (Result-cases (apply_paid_order_effects o.id marked)) [
        | inl ((u, done), e) ↦
            ground (arith, e, apply_paid_order_effects-IsBookkeeping o.id marked done {u = u} e)
        | inr (x, e) ↦ absurd (ground arith)
      ]

  payment_or_webhook-sum :
      (o : Order) (existing : Option Payment) (db db' : Db) (p : Payment)
      → payment_or_webhook provider fresh now event o existing db ≡ ok (p, db')
      → (db'.kuji_events ≡ db.kuji_events)
        × ((k : ℕ)
            → sum_where (is_counted k) quantity db'.orders
              ≡ sum_where (is_counted k) quantity db.orders)
  unfolding payment_or_webhook
  payment_or_webhook-sum o (some existing) db db' p h = (ground arith, λ k. ground arith)
  payment_or_webhook-sum o none db db' p h =
      let paid = record_webhook-sum o db db' p h in
      (paid.1, λ k. rw (paid.0) (sum_paid o.id now k db.orders))

  -- If the books of the events are in order, they are in order after a report of a payment that
  -- succeeds.
  pub webhook_tx-IsSound :
      (db db' : Db) (p : Payment)
      → webhook_tx provider fresh now event db ≡ ok (p, db')
      → IsSound db
      → IsSound db'
  unfolding webhook_tx
  webhook_tx-IsSound db db' p h sound = elim (Option-cases (order_with_id db event.order_id)) [
    | inl missing ↦ absurd (ground arith)
    | inr (o, known) ↦
        let existing = payment_if (is_paid o.status) (payment_of db o.id) in
        let kept = payment_or_webhook-sum o existing db db' p (ground (arith, known)) in
        neutral-IsSound db db' (kept.0) (kept.1) sound
  ]
