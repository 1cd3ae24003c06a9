-- ===== src/SalesOrder/Write/Confirmable.antt =====
-- An order of products that is to be paid by a transfer can be confirmed.
use lucky_draw.Common.{
  ℕ, ◌≡◌, refl, Bool, true, false, String, Option, none, some, List, [], ◌∷◌, ◌++◌, map, arith,
  ◌==◌, find, count_where, contains,
}
use lucky_draw.Model.{Db, Order, Payment, PaymentStatus, MessageType, ok}
use lucky_draw.Cipher.{Cipher}
use lucky_draw.Notification.{notify_user}
use lucky_draw.Order.Sound.Cancel.{order_id}
use lucky_draw.Payment.{order_with_id, payment_of, is_clash, paid_order}
use lucky_draw.Payment.Effects.{apply_paid_order_effects}
use lucky_draw.Payment.Deposit.{confirm_deposit, set_deposited, deposited}
use lucky_draw.Payment.Deposit.Once.{find_updated}
use lucky_draw.SalesOrder.Write.{
  SalesRequest, CreateSalesOrder, is_transfer, new_sales_order, awaited_payment, create_tx,
}
use lucky_draw.SalesOrder.Write.Placed.{IsAwaited, create_tx-SalesPlaced, find-append}

find-awaited :
    (p : Payment) (ps : List Payment)
    → count_where (is_clash p) ps ≡ 0
    → find (λ (x : Payment). x.order_id == p.order_id) (ps ++ p ∷ []) ≡ some p
find-awaited p [] h = ground arith
find-awaited p (x ∷ ps) h = ground (arith, find-awaited p ps)

-- What follows a payment never fails for an order that is there.
pub apply_paid_order_effects-total :
    (order : ℕ) (db : Db) (o : Order)
    → order_with_id db order ≡ some o
    → (db' : Db) × (apply_paid_order_effects order db ≡ ok (tt, db'))
unfolding apply_paid_order_effects
apply_paid_order_effects-total order db o known = rw known (_, refl)

module _ (cipher : Cipher) (r : SalesRequest) (dto : CreateSalesOrder) where
  awaited_row :
      (transfer : Bool) (amount : ℕ) (before after : List Payment)
      → transfer ≡ true
      → IsAwaited cipher r dto transfer amount before after
      → find (λ (x : Payment). x.order_id == r.fresh_order) after
        ≡ some (awaited_payment cipher r dto amount)
  awaited_row true amount before after e h =
      rw (h.1) (find-awaited (awaited_payment cipher r dto amount) before h.0)
  awaited_row false amount before after e h = absurd (ground arith)

  -- If the identifier of the new order is not taken, then a deposit for an order of products that
  -- went through and is to be paid by a transfer can be confirmed at once, by any operator at any
  -- time and with any name of a depositor: the confirmation succeeds, and the payment that it marks
  -- as paid is for the order's total.
  pub create_tx-confirm_deposit :
      (now admin : ℕ) (depositor : Option String) (db : Db) {o : Order} {db' : Db}
      → create_tx cipher r dto db ≡ ok (o, db')
      → contains (map order_id db.orders) r.fresh_order ≡ false
      → is_transfer dto.payment_method ≡ true
      → (p : Payment) × (db'' : Db) × (confirm_deposit now admin o.id depositor db' ≡ ok (p, db''))
        × (p.amount ≡ o.total_amount)
        × (p.status ≡ PaymentStatus.paid)
  unfolding confirm_deposit set_deposited
  create_tx-confirm_deposit now admin depositor db {o = o} {db' = db'} h new transfer =
      let placed = create_tx-SalesPlaced cipher r dto db h new in
      let order = new_sales_order cipher r dto placed.cart placed.shipping in
      let p = awaited_payment cipher r dto placed.cart.amount in
      let known : order_with_id db' o.id ≡ some order =
        ground (
          arith,
          placed.added,
          placed.ordered,
          find-append r.fresh_order db.orders order new refl,
        ) in
      let waiting : payment_of db' o.id ≡ some p = ground (
        arith,
        placed.ordered,
        awaited_row (is_transfer dto.payment_method) placed.cart.amount db.payments db'.payments
            transfer placed.awaited,
      ) in
      let marked = set_deposited now admin o.id depositor db' in
      let found = find_updated o.id (paid_order now) order db'.orders (λ x. refl) known in
      let (done, paid) = apply_paid_order_effects-total o.id marked (paid_order now order) found in
      (
        deposited now admin depositor p,
        notify_user none o.id MessageType.deposit_confirmed done,
        ground (arith, known, waiting, paid, placed.ordered),
        ground (arith, placed.ordered),
        refl,
      )
