-- ===== src/System/Payments.antt =====
-- Orders, payments, deposits, refunds and cancellations keep the books and the identifiers.
use lucky_draw.Common.{
  ℕ, ◌≡◌, refl, false, String, Option, none, some, ◌∷◌, [], map, arith, ◌==◌, contains,
  sum_where-append, Distinct, Distinct-snoc, Distinct-updated, Option-cases, inl, inr,
}
use lucky_draw.Model.{Db, Order, Payment, ProviderName, Shipment, is_paid, ok}
use lucky_draw.Cipher.{Cipher}
use lucky_draw.Order.Shipping.{CreateOrder}
use lucky_draw.Order.Create.{Request, create_tx, create_with_tickets_tx}
use lucky_draw.Order.Create.Steps.{create_tx-Placed, create_with_tickets_tx-Placed}
use lucky_draw.Order.Cancel.{cancel_tx, is_waiting_order, cancelled}
use lucky_draw.Order.Cancel.Effect.{cancel_tx-Cancelled}
use lucky_draw.Order.Sound.{is_counted, quantity}
use lucky_draw.Order.Sound.Create.{create_tx-IsSound, create_with_tickets_tx-IsSound}
use lucky_draw.Order.Sound.Cancel.{order_id, cancel_tx-IsSound}
use lucky_draw.Payment.{
  ConfirmResult, WebhookEvent, is_payable, paid_order, order_with_id, payment_of, payment_if,
}
use lucky_draw.Payment.Confirm.{confirm_tx, payment_or_new}
use lucky_draw.Payment.Webhook.{webhook_tx, payment_or_webhook, fail_order, failed_order}
use lucky_draw.Payment.Deposit.{confirm_deposit}
use lucky_draw.Payment.Refund.{refund_tx, refunded_order}
use lucky_draw.Payment.Books.{
  confirm_tx-IsSound, fail_order-IsSound, record_payment-IsPaidNow, neutral-IsSound,
}
use lucky_draw.Payment.Books.Report.{webhook_tx-IsSound, record_webhook-sum}
use lucky_draw.Payment.Books.Operator.{
  confirm_deposit-IsSound, confirm_deposit-found, refund_tx-IsSound, refund_tx-found,
}
use lucky_draw.SalesOrder.Write.{SalesRequest, CreateSalesOrder, new_sales_order}
use lucky_draw.SalesOrder.Write
use lucky_draw.SalesOrder.Write.Placed.{create_tx-SalesPlaced}
use lucky_draw.System.Booked.{IsBooked}

module _ (cipher : Cipher) (r : Request) (dto : CreateOrder) (db : Db) {o : Order} {db' : Db}
    (new : contains (map order_id db.orders) r.fresh_order ≡ false) where
  pub create_tx-IsBooked :
      (count : ℕ) → create_tx cipher r dto count db ≡ ok (o, db') → IsBooked db → IsBooked db'
  create_tx-IsBooked count h (sound, unique) =
      let placed = (create_tx-Placed cipher r dto db count h).0 in
      (
        create_tx-IsSound cipher r dto db count sound h,
        rw placed.added (Distinct-snoc order_id o db.orders (rw placed.priced new) unique),
      )

  pub create_with_tickets_tx-IsBooked :
      create_with_tickets_tx cipher r dto db ≡ ok (o, db') → IsBooked db → IsBooked db'
  create_with_tickets_tx-IsBooked h (sound, unique) =
      let placed = (create_with_tickets_tx-Placed cipher r dto db h).0 in
      (
        create_with_tickets_tx-IsSound cipher r dto db sound h,
        rw placed.added (Distinct-snoc order_id o db.orders (rw placed.priced new) unique),
      )

-- An order of products counts for no event.
pub sales-IsBooked :
    (cipher : Cipher) (r : SalesRequest) (dto : CreateSalesOrder) (db : Db) {o : Order} {db' : Db}
    → contains (map order_id db.orders) r.fresh_order ≡ false
    → Write.create_tx cipher r dto db ≡ ok (o, db')
    → IsBooked db
    → IsBooked db'
sales-IsBooked cipher r dto db {o = o} {db' = db'} new h (sound, unique) =
    let placed = create_tx-SalesPlaced cipher r dto db h new in
    (
      neutral-IsSound db db' placed.same_events
          (λ k. ground (
            arith,
            placed.added,
            placed.ordered,
            sum_where-append (is_counted k) quantity db.orders (o ∷ []),
          ))
          sound,
      rw placed.added (Distinct-snoc order_id o db.orders (rw placed.ordered new) unique),
    )

pub cancel_tx-IsBooked :
    (now user id : ℕ) (db : Db) {x : Option Order} {db' : Db}
    → cancel_tx now user id db ≡ ok (x, db')
    → IsBooked db
    → IsBooked db'
cancel_tx-IsBooked now user id db h (sound, unique) =
    let c = cancel_tx-Cancelled now user id db h in
    (
      cancel_tx-IsSound now user id db unique sound h,
      rw c.written (
          Distinct-updated order_id (is_waiting_order id) (cancelled now) (λ o. refl) db.orders
            unique),
    )

pub fail_order-IsBooked : (order : ℕ) (db : Db) → IsBooked db → IsBooked (fail_order order db)
fail_order-IsBooked order db (sound, unique) = (
  fail_order-IsSound order db sound,
  Distinct-updated order_id (is_payable order) failed_order (λ o. refl) db.orders unique,
)

module _ (provider : ProviderName) (fresh user : ℕ) (external : ConfirmResult) where
  payment_or_new-Distinct :
      (o : Order) (existing : Option Payment) (db db' : Db) (p : Payment)
      → payment_or_new provider fresh user external o existing db ≡ ok (p, db')
      → Distinct order_id db.orders
      → Distinct order_id db'.orders
  unfolding payment_or_new
  payment_or_new-Distinct o (some existing) db db' p h unique = ground arith
  payment_or_new-Distinct o none db db' p h unique =
      rw ((record_payment-IsPaidNow provider fresh user external o db db' p h).0) (
        Distinct-updated order_id (is_payable o.id) (paid_order external.paid_at) (λ o. refl)
          db.orders unique)

  pub confirm_tx-IsBooked :
      (order : ℕ) (db db' : Db) (p : Payment)
      → confirm_tx provider fresh user external order db ≡ ok (p, db')
      → IsBooked db
      → IsBooked db'
  unfolding confirm_tx
  confirm_tx-IsBooked order db db' p h (sound, unique) = (
    confirm_tx-IsSound provider fresh user external order db db' p h sound,
    elim (Option-cases (order_with_id db order)) [
      | inl missing ↦ absurd (ground arith)
      | inr (o, known) ↦
          payment_or_new-Distinct o (payment_if (is_paid o.status) (payment_of db o.id)) db db' p
            (ground (arith, known)) unique
    ],
  )

module _ (provider : ProviderName) (fresh now : ℕ) (event : WebhookEvent) where
  payment_or_webhook-Distinct :
      (o : Order) (existing : Option Payment) (db db' : Db) (p : Payment)
      → payment_or_webhook provider fresh now event o existing db ≡ ok (p, db')
      → Distinct order_id db.orders
      → Distinct order_id db'.orders
  unfolding payment_or_webhook
  payment_or_webhook-Distinct o (some existing) db db' p h unique = ground arith
  payment_or_webhook-Distinct o none db db' p h unique =
      rw ((record_webhook-sum provider fresh now event o db db' p h).0)
        (Distinct-updated order_id (is_payable o.id) (paid_order now) (λ o. refl) db.orders unique)

  pub webhook_tx-IsBooked :
      (db db' : Db) (p : Payment)
      → webhook_tx provider fresh now event db ≡ ok (p, db')
      → IsBooked db
      → IsBooked db'
  unfolding webhook_tx
  webhook_tx-IsBooked db db' p h (sound, unique) = (
    webhook_tx-IsSound provider fresh now event db db' p h sound,
    elim (Option-cases (order_with_id db event.order_id)) [
      | inl missing ↦ absurd (ground arith)
      | inr (o, known) ↦
          payment_or_webhook-Distinct o (payment_if (is_paid o.status) (payment_of db o.id)) db db'
            p (ground (arith, known)) unique
    ],
  )

module _ (admin order : ℕ) where
  pub confirm_deposit-IsBooked :
      (now : ℕ) (depositor : Option String) (db db' : Db) (p : Payment)
      → confirm_deposit now admin order depositor db ≡ ok (p, db')
      → IsBooked db
      → IsBooked db'
  confirm_deposit-IsBooked now depositor db db' p h (sound, unique) =
      let (o, known, waiting, orders, events) =
        confirm_deposit-found admin order now depositor db db' p h in
      (
        confirm_deposit-IsSound admin order now depositor db db' p h unique sound,
        rw orders (
            Distinct-updated order_id (λ x. x.id == order) (paid_order now) (λ o. refl) db.orders
              unique),
      )

  pub refund_tx-IsBooked :
      (reason : String) (at : ℕ) (shipment : Option Shipment) (db db' : Db) {u : Unit {0}}
      → refund_tx admin order reason at shipment db ≡ ok (u, db')
      → IsBooked db
      → IsBooked db'
  refund_tx-IsBooked reason at shipment db db' {u = u} h (sound, unique) =
      let (o, known, open_order, orders, events) =
        refund_tx-found admin order reason at shipment db db' {u = u} h in
      (
        refund_tx-IsSound admin order reason at shipment db db' {u = u} h unique sound,
        rw orders (
            Distinct-updated order_id (λ x. x.id == order) refunded_order (λ o. refl) db.orders
              unique),
      )
