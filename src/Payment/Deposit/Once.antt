-- ===== src/Payment/Deposit/Once.antt =====
-- A deposit is confirmed once.
use lucky_draw.Common.{
  ℕ, ◌≡◌, refl, String, Option, some, List, [], ◌∷◌, ◌==◌, find, update_where, arith,
}
use lucky_draw.Model.{Db, Order, OrderStatus, Payment, ok, err, conflict, order_not_waiting}
use lucky_draw.Payment.{paid_order}
use lucky_draw.Payment.Deposit.{confirm_deposit}
use lucky_draw.Payment.Books.Operator.{confirm_deposit-found}

pub find_updated :
    (id : ℕ) (f : Order → Order) (o : Order) (os : List Order)
    → ((x : Order) → (f x).id ≡ x.id)
    → find (λ (x : Order). x.id == id) os ≡ some o
    → find (λ (x : Order). x.id == id) (update_where (λ (x : Order). x.id == id) f os) ≡ some (f o)
find_updated id f o [] keeps e = ground arith
find_updated id f o (x ∷ os) keeps e = ground (arith, keeps x, find_updated id f o os keeps)

-- After a confirmation of a deposit that succeeds, whoever confirms the deposit of this order
-- again is refused, since the order is paid and does not wait for a payment any more.
pub confirm_deposit-confirm_deposit :
    (now later admin admin' order : ℕ) (depositor depositor' : Option String) (db db' : Db)
    (p : Payment)
    → confirm_deposit now admin order depositor db ≡ ok (p, db')
    → confirm_deposit later admin' order depositor' db'
      ≡ err (conflict (order_not_waiting OrderStatus.paid))
unfolding confirm_deposit
confirm_deposit-confirm_deposit now later admin admin' order depositor depositor' db db' p h =
    let (o, known, waiting, orders, events) =
      confirm_deposit-found admin order now depositor db db' p h in
    let again = find_updated order (paid_order now) o db.orders (λ x. refl) known in
    ground (arith, orders, again)
