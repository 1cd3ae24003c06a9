-- ===== src/Order/Sound/Cancel.antt =====
-- A cancellation keeps the books of the events.
use lucky_draw.Common.{
  ℕ, ◌+◌, ◌≡◌, refl, false, Option, none, some, List, [], ◌∷◌, map, arith, ◌==◌, ◌=?◌, contains,
  find, sum_where, update_where, All, Distinct, if◌then◌else◌, Option-cases, inl, inr,
}
use lucky_draw.Model.{Db, KujiEvent, Order, OrderStatus, ok}
use lucky_draw.Order.Cancel.{cancel_tx, is_waiting_order, cancelled, unsell}
use lucky_draw.Order.Cancel.Effect.{restored, cancel_tx-Cancelled}
use lucky_draw.Order.Sound.{IsSound, IsSoldExact, is_counted, quantity, event_id}

abbrev pub order_id : Order → ℕ
order_id o = o.id

module _ (now id : ℕ) where
  others_kept :
      (k : ℕ) (os : List Order)
      → contains (map order_id os) id ≡ false
      → sum_where (is_counted k) quantity (update_where (is_waiting_order id) (cancelled now) os)
        ≡ sum_where (is_counted k) quantity os
  others_kept k [] h = refl
  others_kept k (o ∷ os) h = ground (arith, others_kept k os)

  -- The sum of an event's orders falls by the cancelled order's tickets.
  sum_without :
      (k : ℕ) (order : Order) (os : List Order)
      → Distinct order_id os
      → find (λ (o : Order). o.id == id) os ≡ some order
      → order.status ≡ OrderStatus.pending_payment
      → sum_where (is_counted k) quantity (update_where (is_waiting_order id) (cancelled now) os)
          + (if order.kuji_event_id =? k then order.ticket_count else 0)
        ≡ sum_where (is_counted k) quantity os
  sum_without k order [] d e w = ground arith
  sum_without k order (o ∷ os) d e w = ground (arith, others_kept k os, sum_without k order os d.1)

module _ (now id : ℕ) (order : Order) (os : List Order) (unique : Distinct order_id os)
    (known : find (λ (o : Order). o.id == id) os ≡ some order)
    (waiting : order.status ≡ OrderStatus.pending_payment) where
  sold_after :
      (es : List KujiEvent)
      → All (IsSoldExact os) es
      → All
          (IsSoldExact (update_where (is_waiting_order id) (cancelled now) os))
          (restored order.kuji_event_id order.ticket_count es)
  sold_after [] h = elim (Option-cases order.kuji_event_id) [
    | inl k ↦ ground arith
    | inr (kuji, k) ↦ ground arith
  ]
  sold_after (e ∷ es) h = elim (Option-cases order.kuji_event_id) [
    | inl k ↦
        ground (arith, sum_without now id e.id order os unique known waiting, sold_after es h.1)
    | inr (kuji, k) ↦
        ground (arith, sum_without now id e.id order os unique known waiting, sold_after es h.1)
  ]

unsell-event_id :
    (kuji count k : ℕ) (es : List KujiEvent)
    → contains (map event_id (update_where (λ (e : KujiEvent). e.id == kuji) (unsell count) es)) k
      ≡ contains (map event_id es) k
unsell-event_id kuji count k [] = refl
unsell-event_id kuji count k (e ∷ es) = ground (arith, unsell-event_id kuji count k es)

unsell-Distinct :
    (kuji count : ℕ) (es : List KujiEvent)
    → Distinct event_id es
    → Distinct event_id (update_where (λ (e : KujiEvent). e.id == kuji) (unsell count) es)
unsell-Distinct kuji count [] h = tt
unsell-Distinct kuji count (e ∷ es) h =
    ground (arith, unsell-event_id kuji count e.id es, unsell-Distinct kuji count es h.1)

restored-Distinct :
    (kuji : Option ℕ) (count : ℕ) (es : List KujiEvent)
    → Distinct event_id es
    → Distinct event_id (restored kuji count es)
restored-Distinct none count es h = h
restored-Distinct (some kuji) count es h = unsell-Distinct kuji count es h

-- If orders have different identifiers and the books of the events are in order, they are in order
-- after a cancellation that succeeds.
pub cancel_tx-IsSound :
    (now user id : ℕ) (db : Db) {x : Option Order} {db' : Db}
    → Distinct order_id db.orders
    → IsSound db
    → cancel_tx now user id db ≡ ok (x, db')
    → IsSound db'
cancel_tx-IsSound now user id db unique (distinct, exact) h =
    let c = cancel_tx-Cancelled now user id db h in
    (
      rw c.written
          (restored-Distinct c.order.kuji_event_id c.order.ticket_count db.kuji_events distinct),
      rw c.written
          (sold_after now id c.order db.orders unique c.known c.waiting db.kuji_events exact),
    )
