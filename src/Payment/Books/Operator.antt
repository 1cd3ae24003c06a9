-- ===== src/Payment/Books/Operator.antt =====
-- The operator's transactions, a confirmed deposit and a refund, keep the books of the events.
use lucky_draw.Common.{
  ℕ, ◌≡◌, refl, true, false, String, Option, some, update_where, Distinct, arith, Option-cases, inl,
  inr, ◌==◌,
}
use lucky_draw.Model.{
  Db, Order, Payment, Shipment, OrderStatus, is_pending_payment, is_paid_or_drawn, ok,
}
use lucky_draw.Tx.{Result-cases}
use lucky_draw.Notification.{notify_user}
use lucky_draw.Order.Sound.{IsSound, is_cancelled}
use lucky_draw.Order.Sound.Cancel.{order_id}
use lucky_draw.Payment.{paid_order, order_with_id, payment_of}
use lucky_draw.Payment.Effects.{apply_paid_order_effects}
use lucky_draw.Payment.Effects.Frame.{apply_paid_order_effects-IsBookkeeping}
use lucky_draw.Payment.Deposit.{confirm_deposit, set_deposited}
use lucky_draw.Payment.Refund.{refund_tx, refunded_order}
use lucky_draw.Payment.Books.{neutral-IsSound, sum_by_id}

pending_not_cancelled : (s : OrderStatus) → is_pending_payment s ≡ true → is_cancelled s ≡ false
pending_not_cancelled OrderStatus.pending_payment h = refl
pending_not_cancelled OrderStatus.paid h = refl
pending_not_cancelled OrderStatus.drawn h = refl
pending_not_cancelled OrderStatus.completed h = refl
pending_not_cancelled OrderStatus.cancelled h = absurd (ground arith)
pending_not_cancelled OrderStatus.refunded h = refl
pending_not_cancelled OrderStatus.failed h = refl

refundable_not_cancelled : (s : OrderStatus) → is_paid_or_drawn s ≡ true → is_cancelled s ≡ false
refundable_not_cancelled OrderStatus.pending_payment h = refl
refundable_not_cancelled OrderStatus.paid h = refl
refundable_not_cancelled OrderStatus.drawn h = refl
refundable_not_cancelled OrderStatus.completed h = refl
refundable_not_cancelled OrderStatus.cancelled h = absurd (ground arith)
refundable_not_cancelled OrderStatus.refunded h = refl
refundable_not_cancelled OrderStatus.failed h = refl

module _ (admin order : ℕ) where
  -- What a confirmation of a deposit that succeeds has found.
  pub confirm_deposit-found :
      (now : ℕ) (depositor : Option String) (db db' : Db) (p : Payment)
      → confirm_deposit now admin order depositor db ≡ ok (p, db')
      → (o : Order) × (order_with_id db order ≡ some o)
        × (is_pending_payment o.status ≡ true)
        × (db'.orders ≡ update_where (λ (x : Order). x.id == order) (paid_order now) db.orders)
        × (db'.kuji_events ≡ db.kuji_events)
  unfolding confirm_deposit set_deposited notify_user
  confirm_deposit-found now depositor db db' p h = elim (Option-cases (order_with_id db order)) [
    | inl missing ↦ absurd (ground arith)
    | inr (o, known) ↦ elim (Option-cases (payment_of db order)) [
      | inl missing ↦ absurd (ground arith)
      | inr (paid, with_it) ↦
          elim (Result-cases
            (apply_paid_order_effects order (set_deposited now admin order depositor db))) [
              | inl ((u, done), e) ↦
                  let kept =
                    apply_paid_order_effects-IsBookkeeping order
                      (set_deposited now admin order depositor db) done {u = u} e in
                  (o, known, ground (arith, kept), ground (arith, kept), ground (arith, kept))
              | inr (x, e) ↦ absurd (ground arith)
            ]
    ]
  ]

  -- If orders have different identifiers and the books of the events are in order, they are in
  -- order after a confirmation of a deposit that succeeds.
  pub confirm_deposit-IsSound :
      (now : ℕ) (depositor : Option String) (db db' : Db) (p : Payment)
      → confirm_deposit now admin order depositor db ≡ ok (p, db')
      → Distinct order_id db.orders
      → IsSound db
      → IsSound db'
  confirm_deposit-IsSound now depositor db db' p h unique sound =
      let (o, known, waiting, orders, events) = confirm_deposit-found now depositor db db' p h in
      neutral-IsSound db db' events
        (λ k. rw orders (
          sum_by_id order (paid_order now) (λ x. (refl, refl, refl)) k o db.orders unique known
            (pending_not_cancelled o.status waiting)))
        sound

  -- What a refund that succeeds has found.
  pub refund_tx-found :
      (reason : String) (refunded_at : ℕ) (shipment : Option Shipment) (db db' : Db) {u : Unit {0}}
      → refund_tx admin order reason refunded_at shipment db ≡ ok (u, db')
      → (o : Order) × (order_with_id db order ≡ some o)
        × (is_paid_or_drawn o.status ≡ true)
        × (db'.orders ≡ update_where (λ (x : Order). x.id == order) refunded_order db.orders)
        × (db'.kuji_events ≡ db.kuji_events)
  unfolding refund_tx
  refund_tx-found reason refunded_at shipment db db' {u = u} h =
      elim (Option-cases (order_with_id db order)) [
        | inl missing ↦ absurd (ground arith)
        | inr (o, known) ↦ (o, known, ground arith, ground arith, ground arith)
      ]

  -- If orders have different identifiers and the books of the events are in order, they are in
  -- order after a refund that succeeds; the tickets of the refunded order still count as sold.
  pub refund_tx-IsSound :
      (reason : String) (refunded_at : ℕ) (shipment : Option Shipment) (db db' : Db) {u : Unit {0}}
      → refund_tx admin order reason refunded_at shipment db ≡ ok (u, db')
      → Distinct order_id db.orders
      → IsSound db
      → IsSound db'
  refund_tx-IsSound reason refunded_at shipment db db' {u = u} h unique sound =
      let (o, known, open_order, orders, events) =
        refund_tx-found reason refunded_at shipment db db' {u = u} h in
      neutral-IsSound db db' events
        (λ k. rw orders (
          sum_by_id order refunded_order (λ x. (refl, refl, refl)) k o db.orders unique known
            (refundable_not_cancelled o.status open_order)))
        sound
