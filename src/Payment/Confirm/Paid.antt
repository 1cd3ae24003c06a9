-- ===== src/Payment/Confirm/Paid.antt =====
-- A payment is confirmed for the right order and amount, and once.
use lucky_draw.Common.{
  ℕ, ◌≡◌, refl, true, false, some, List, [], ◌∷◌, ◌++◌, find, count_where, update_where, arith, inl,
  inr, ◌==◌,
}
use lucky_draw.Model.{
  Db, Order, Payment, OrderStatus, ProviderName, is_paid, is_pending_payment, ok,
}
use lucky_draw.Tx.{Result-cases}
use lucky_draw.Payment.{
  ConfirmResult, is_payable, paid_order, order_with_id, payment_of, insert_payment, is_clash,
}
use lucky_draw.Payment.Effects.{apply_paid_order_effects}
use lucky_draw.Payment.Effects.Frame.{apply_paid_order_effects-IsBookkeeping}
use lucky_draw.Payment.Confirm.{confirm_tx, new_payment, payment_or_new, record_payment}

find_paid :
    (at id : ℕ) (o : Order) (os : List Order)
    → find (λ (x : Order). x.id == id) os ≡ some o
    → is_pending_payment o.status ≡ true
    → find (λ (x : Order). x.id == id) (update_where (is_payable id) (paid_order at) os)
      ≡ some (paid_order at o)
find_paid at id o [] e w = ground arith
find_paid at id o (x ∷ os) e w = ground (arith, find_paid at id o os)

find_new :
    (p : Payment) (ps : List Payment)
    → count_where (is_clash p) ps ≡ 0
    → find (λ (x : Payment). x.order_id == p.order_id) (ps ++ p ∷ []) ≡ some p
find_new p [] h = ground arith
find_new p (x ∷ ps) h = ground (arith, find_new p ps)

find_order-id :
    (id : ℕ) (o : Order) (os : List Order)
    → find (λ (x : Order). x.id == id) os ≡ some o
    → o.id ≡ id
find_order-id id o [] e = ground arith
find_order-id id o (x ∷ os) e = ground (arith, find_order-id id o os)

not_paid : (s : OrderStatus) → is_pending_payment s ≡ true → is_paid s ≡ false
not_paid OrderStatus.pending_payment h = refl
not_paid OrderStatus.paid h = absurd (ground arith)
not_paid OrderStatus.drawn h = refl
not_paid OrderStatus.completed h = refl
not_paid OrderStatus.cancelled h = refl
not_paid OrderStatus.refunded h = refl
not_paid OrderStatus.failed h = refl

module _ (provider : ProviderName) (fresh user : ℕ) (external : ConfirmResult) where
  record_payment-recorded :
      (o : Order) (db db' : Db) (p : Payment)
      → record_payment provider fresh user external o db ≡ ok (p, db')
      → (p ≡ new_payment provider fresh user external o)
        × (count_where (is_clash p) db.payments ≡ 0)
        × (db'.payments ≡ db.payments ++ p ∷ [])
        × (db'.orders ≡ update_where (is_payable o.id) (paid_order external.paid_at) db.orders)
  unfolding record_payment insert_payment
  record_payment-recorded o db db' p h =
      let marked = record db {
        payments = db.payments ++ new_payment provider fresh user external o ∷ [];
        orders = update_where (is_payable o.id) (paid_order external.paid_at) db.orders;
      } in
      elim (Result-cases (apply_paid_order_effects o.id marked)) [
        | inl ((u, done), e) ↦
            let kept = apply_paid_order_effects-IsBookkeeping o.id marked done {u = u} e in
            (ground (arith, kept), ground (arith, kept), ground (arith, kept), ground (arith, kept))
        | inr (x, e) ↦ absurd (ground arith)
      ]

  confirm_tx-new :
      (o : Order) (order : ℕ) (db db' : Db) (p : Payment)
      → confirm_tx provider fresh user external order db ≡ ok (p, db')
      → order_with_id db order ≡ some o
      → is_pending_payment o.status ≡ true
      → (record_payment provider fresh user external o db ≡ ok (p, db'))
        × (o.user_id ≡ user)
        × (o.total_amount ≡ external.amount)
        × (o.id ≡ order)
  unfolding confirm_tx payment_or_new
  confirm_tx-new o order db db' p h known waiting =
      let here = find_order-id order o db.orders known in
      (
        ground (arith, not_paid o.status waiting),
        ground (arith, known),
        ground (arith, known),
        here,
      )

  -- A confirmation of a waiting order that succeeds makes a payment of exactly what the order of
  -- this user costs, and the order had no payment. The order is paid afterwards, and confirming it
  -- again with any answer of the provider for the same amount gives the same payment and changes
  -- nothing.
  pub confirm_tx-confirm_tx :
      (o : Order) (order fresh' : ℕ) (again : ConfirmResult) (db db' : Db) (p : Payment)
      → confirm_tx provider fresh user external order db ≡ ok (p, db')
      → order_with_id db order ≡ some o
      → is_pending_payment o.status ≡ true
      → again.amount ≡ external.amount
      → (p.amount ≡ o.total_amount)
        × (p.order_id ≡ order)
        × (payment_of db' order ≡ some p)
        × (order_with_id db' order ≡ some (paid_order external.paid_at o))
        × (confirm_tx provider fresh' user again order db' ≡ ok (p, db'))
  unfolding confirm_tx payment_or_new
  confirm_tx-confirm_tx o order fresh' again db db' p h known waiting same =
      let (made, mine, costs, here) = confirm_tx-new o order db db' p h known waiting in
      let (is_new, clash, payments, orders) = record_payment-recorded o db db' p made in
      let paid = find_paid external.paid_at order o db.orders known waiting in
      let found = find_new p db.payments clash in
      let of_order : p.order_id ≡ order = ground (arith, is_new, here) in
      let amount : p.amount ≡ o.total_amount = ground (arith, is_new, costs) in
      let stored : payment_of db' order ≡ some p = ground (arith, payments, found, of_order) in
      let marked : order_with_id db' order ≡ some (paid_order external.paid_at o) =
        ground (arith, orders, paid, here) in
      (amount, of_order, stored, marked, ground (arith, stored, marked, mine, costs, same, here))
