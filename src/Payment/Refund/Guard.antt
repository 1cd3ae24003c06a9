-- ===== src/Payment/Refund/Guard.antt =====
-- An order is refunded once.
use lucky_draw.Common.{ℕ, ◌≡◌, String, Option, some, List, [], ◌∷◌, ◌==◌, find, update_where, arith}
use lucky_draw.Model.{Db, Order, OrderStatus, Payment, Shipment, ok, err, conflict, cannot_refund}
use lucky_draw.Payment.{payment_of}
use lucky_draw.Payment.Books.Operator.{refund_tx-found}
use lucky_draw.Payment.Refund.{check_refund, refund_tx, refunded_order}

find_refunded :
    (id : ℕ) (o : Order) (os : List Order)
    → find (λ (x : Order). x.id == id) os ≡ some o
    → find (λ (x : Order). x.id == id) (update_where (λ (x : Order). x.id == id) refunded_order os)
      ≡ some (refunded_order o)
find_refunded id o [] e = ground arith
find_refunded id o (x ∷ os) e = ground (arith, find_refunded id o os)

-- After a refund that succeeds, the check before a second refund of this order refuses it, since
-- the order is refunded, if the order still has its payment.
pub refund_tx-check_refund :
    (admin order refunded_at : ℕ) (reason : String) (shipment : Option Shipment) (db db' : Db)
    (p : Payment) {u : Unit {0}}
    → refund_tx admin order reason refunded_at shipment db ≡ ok (u, db')
    → payment_of db' order ≡ some p
    → check_refund order db' ≡ err (conflict (cannot_refund OrderStatus.refunded))
unfolding check_refund
refund_tx-check_refund admin order refunded_at reason shipment db db' p {u = u} h paid =
    let (o, known, open_order, orders, events) =
      refund_tx-found admin order reason refunded_at shipment db db' {u = u} h in
    let again = find_refunded order o db.orders known in ground (arith, orders, again, paid)
