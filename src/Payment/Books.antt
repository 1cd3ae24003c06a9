-- ===== src/Payment/Books.antt =====
-- A payment, in whatever way it comes, keeps the books of the events; and so do its failure and its
-- refund, which leave the tickets sold.
pub mod Report
pub mod Operator
use lucky_draw.Common.{
  ℕ, ◌+◌, ◌≤◌, ◌≡◌, ◌≢◌, refl, Bool, true, false, not, ◌&&◌, String, Option, none, some, List, [],
  ◌∷◌, ◌++◌, map, ltb, leb, ◌==◌, ◌=?◌, find, count_where, sum_where, update_where, if◌then◌else◌,
  All, Distinct, contains, arith, Bool-cases, Option-cases, inl, inr,
}
use lucky_draw.Model.{
  Db, KujiEvent, Order, Payment, OrderStatus, ProviderName, Shipment, is_pending_payment, is_paid,
  is_paid_or_drawn, ok, err, conflict, state_changed_concurrently,
}
use lucky_draw.Tx.{Tx, gets, pure, modify, throw_if, ◌>>=◌, ◌>>◌, >>=-eq-ok, Result-cases}
use lucky_draw.Order.Sound.{IsSound, IsSoldExact, is_counted, is_cancelled, quantity}
use lucky_draw.Order.Sound.Cancel.{order_id}
use lucky_draw.Payment.{
  ConfirmResult, WebhookEvent, is_payable, paid_order, order_with_id, payment_of, insert_payment,
  payment_if,
}
use lucky_draw.Payment.Effects.{apply_paid_order_effects}
use lucky_draw.Payment.Effects.Frame.{IsBookkeeping, apply_paid_order_effects-IsBookkeeping}
use lucky_draw.Payment.Confirm.{confirm_tx, new_payment, payment_or_new, record_payment}
use lucky_draw.Payment.Webhook.{
  webhook_tx, payment_or_webhook, record_webhook, fail_order, failed_order,
}
use lucky_draw.Payment.Deposit.{confirm_deposit}
use lucky_draw.Payment.Refund.{refund_tx, refunded_order}

-- An update of orders that are not cancelled, into orders that are not cancelled, for the same
-- tickets of the same event.
abbrev IsNeutral : (Order → Bool) → (Order → Order) → List Order → Type 0
IsNeutral p f os =
    (k : ℕ)
    → sum_where (is_counted k) quantity (update_where p f os) ≡ sum_where (is_counted k) quantity os

neutral_exact :
    (os os' : List Order) (es : List KujiEvent)
    → ((k : ℕ) → sum_where (is_counted k) quantity os' ≡ sum_where (is_counted k) quantity os)
    → All (IsSoldExact os) es
    → All (IsSoldExact os') es
neutral_exact os os' [] n h = tt
neutral_exact os os' (e ∷ es) n h = ground (arith, n e.id, neutral_exact os os' es n)

pub neutral-IsSound :
    (db db' : Db)
    → db'.kuji_events ≡ db.kuji_events
    → ((k : ℕ)
        → sum_where (is_counted k) quantity db'.orders
          ≡ sum_where (is_counted k) quantity db.orders)
    → IsSound db
    → IsSound db'
neutral-IsSound db db' e n sound =
    rw e (sound.0, neutral_exact db.orders db'.orders db.kuji_events n sound.1)

pub sum_paid :
    (order at k : ℕ) (os : List Order)
    → sum_where (is_counted k) quantity (update_where (is_payable order) (paid_order at) os)
      ≡ sum_where (is_counted k) quantity os
sum_paid order at k [] = refl
sum_paid order at k (o ∷ os) = ground (arith, sum_paid order at k os)

sum_failed :
    (order k : ℕ) (os : List Order)
    → sum_where (is_counted k) quantity (update_where (is_payable order) failed_order os)
      ≡ sum_where (is_counted k) quantity os
sum_failed order k [] = refl
sum_failed order k (o ∷ os) = ground (arith, sum_failed order k os)

-- If the books of the events are in order, they are in order after a report of a failed payment;
-- the tickets of the failed order still count as sold.
pub fail_order-IsSound : (order : ℕ) (db : Db) → IsSound db → IsSound (fail_order order db)
fail_order-IsSound order db sound =
    neutral-IsSound db (fail_order order db) refl (λ k. sum_failed order k db.orders) sound

module _ (provider : ProviderName) (fresh user : ℕ) (external : ConfirmResult) where
  -- What a confirmation does to orders and events.
  abbrev pub IsPaidNow : ℕ → Db → Db → Type 0
  IsPaidNow order db db' =
      (db'.orders ≡ update_where (is_payable order) (paid_order external.paid_at) db.orders)
      × (db'.kuji_events ≡ db.kuji_events)

  pub record_payment-IsPaidNow :
      (o : Order) (db db' : Db) (p : Payment)
      → record_payment provider fresh user external o db ≡ ok (p, db')
      → IsPaidNow o.id db db'
  unfolding record_payment insert_payment
  record_payment-IsPaidNow o db db' p h =
      let marked = record db {
        payments = db.payments ++ new_payment provider fresh user external o ∷ [];
        orders = update_where (is_payable o.id) (paid_order external.paid_at) db.orders;
      } in
      elim (Result-cases (apply_paid_order_effects o.id marked)) [
        | inl ((u, done), e) ↦
            ground (arith, e, apply_paid_order_effects-IsBookkeeping o.id marked done {u = u} e)
        | inr (x, e) ↦ absurd (ground arith)
      ]

  payment_or_new-sum :
      (o : Order) (existing : Option Payment) (db db' : Db) (p : Payment)
      → payment_or_new provider fresh user external o existing db ≡ ok (p, db')
      → (db'.kuji_events ≡ db.kuji_events)
        × ((k : ℕ)
            → sum_where (is_counted k) quantity db'.orders
              ≡ sum_where (is_counted k) quantity db.orders)
  unfolding payment_or_new
  payment_or_new-sum o (some existing) db db' p h = (ground arith, λ k. ground arith)
  payment_or_new-sum o none db db' p h =
      let paid = record_payment-IsPaidNow o db db' p h in
      (paid.1, λ k. rw (paid.0) (sum_paid o.id external.paid_at k db.orders))

  -- If the books of the events are in order, they are in order after a confirmation that succeeds.
  pub confirm_tx-IsSound :
      (order : ℕ) (db db' : Db) (p : Payment)
      → confirm_tx provider fresh user external order db ≡ ok (p, db')
      → IsSound db
      → IsSound db'
  unfolding confirm_tx
  confirm_tx-IsSound order db db' p h sound = elim (Option-cases (order_with_id db order)) [
    | inl missing ↦ absurd (ground arith)
    | inr (o, known) ↦
        let existing = payment_if (is_paid o.status) (payment_of db o.id) in
        let kept = payment_or_new-sum o existing db db' p (ground (arith, known)) in
        neutral-IsSound db db' (kept.0) (kept.1) sound
  ]

-- The same updates by the order's identifier alone, for an order that is not cancelled.
module _ (id : ℕ) (f : Order → Order)
    (same : (o : Order)
      → ((f o).kuji_event_id ≡ o.kuji_event_id)
        × ((f o).ticket_count ≡ o.ticket_count)
        × (is_cancelled (f o).status ≡ false)) where
  abbrev has_id : Order → Bool
  has_id o = o.id == id

  sum_others :
      (k : ℕ) (os : List Order)
      → contains (map order_id os) id ≡ false
      → sum_where (is_counted k) quantity (update_where has_id f os)
        ≡ sum_where (is_counted k) quantity os
  sum_others k [] h = refl
  sum_others k (o ∷ os) h = ground (arith, sum_others k os)

  pub sum_by_id :
      (k : ℕ) (order : Order) (os : List Order)
      → Distinct order_id os
      → find has_id os ≡ some order
      → is_cancelled order.status ≡ false
      → sum_where (is_counted k) quantity (update_where has_id f os)
        ≡ sum_where (is_counted k) quantity os
  sum_by_id k order [] d e w = refl
  sum_by_id k order (o ∷ os) d e w =
      ground (arith, same o, sum_others k os, sum_by_id k order os d.1)
