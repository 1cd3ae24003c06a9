-- ===== src/Payment/Confirm.antt =====
-- Starting and confirming a payment (apps/backend/src/payment/payment.service.ts: createIntent,
-- confirm, autoDraw, findByOrder).
pub mod Paid
use lucky_draw.Common.{
  ℕ, Bool, true, false, not, ◌&&◌, ◌||◌, Option, none, some, List, [], ◌∷◌, ◌==◌, ◌=?◌, find,
  count_where, update_where, if◌then◌else◌,
}
use lucky_draw.Model.{
  Db, Order, OrderStatus, Payment, PaymentMethod, ProviderName, is_paid, is_drawn,
  is_pending_payment, Error, Result, ok, err, forbidden, not_found, conflict, bad_request,
  unique_violation, order_not_found, order_not_payable, amount_mismatch, state_changed_concurrently,
  payment_already_finalized, bank_transfer_order, payment_not_found,
}
use lucky_draw.Tx.{Tx, pure, throw, gets, or_throw, modify, throw_if, lift, ◌>>=◌, ◌>>◌}
use lucky_draw.Cipher.{Cipher}
use lucky_draw.Draw.Result.{Summary, find_by_order}
use lucky_draw.Draw.Execute.{execute}
use lucky_draw.Payment.{
  PaymentView, ConfirmResult, order_with_id, payment_of, serialize_payment, insert_payment,
  paid_payment, is_payable, paid_order, payment_if,
}
use lucky_draw.Payment.Effects.{apply_paid_order_effects}

abbrev is_manual : ProviderName → Bool
is_manual ProviderName.manual = true
is_manual _ = false

abbrev is_bank_transfer : Option PaymentMethod → Bool
is_bank_transfer (some PaymentMethod.bank_transfer) = true
is_bank_transfer _ = false

abbrev pub is_manual_transfer : Option Payment → Bool
is_manual_transfer none = false
is_manual_transfer (some p) = is_manual p.provider && is_bank_transfer p.method

-- `initiate` is the provider's call, for an order and its amount.
unfoldable pub create_intent : {A : Type 0} → (ℕ → ℕ → Result A) → ℕ → ℕ → Tx A
create_intent initiate user order = do
  found ← gets (λ db. order_with_id db order)
  o ← or_throw found (not_found order_not_found)
  throw_if (not (o.user_id == user)) forbidden
  throw_if (not (is_pending_payment o.status)) (conflict (order_not_payable o.status))
  payment ← gets (λ db. payment_of db order)
  throw_if (is_manual_transfer payment) (conflict bank_transfer_order)
  lift (initiate o.id o.total_amount)

unfoldable pub find_payment : ℕ → ℕ → Tx PaymentView
find_payment user order = do
  found ← gets (λ db. order_with_id db order)
  o ← or_throw found (not_found order_not_found)
  throw_if (not (o.user_id == user)) forbidden
  payment ← gets (λ db. payment_of db order)
  p ← or_throw payment (not_found payment_not_found)
  pure (serialize_payment p)

-- `external.method ?? 'CARD'`
abbrev or_card : Option PaymentMethod → PaymentMethod
or_card none = PaymentMethod.card
or_card (some m) = m

module _ (provider : ProviderName) (fresh user : ℕ) (external : ConfirmResult) where
  unfoldable pub new_payment : Order → Payment
  new_payment o =
      paid_payment fresh provider o.id external.provider_tx_id external.amount
        (or_card external.method) external.paid_at

  -- The order is paid now, and has no payment yet.
  unfoldable pub record_payment : Order → Tx Payment
  unfolding new_payment insert_payment apply_paid_order_effects
  record_payment o = do
    throw_if (not (is_pending_payment o.status) && not (is_paid o.status))
        (conflict (order_not_payable o.status))
    created ← insert_payment (new_payment o)
    updated ← gets (λ db. count_where (is_payable o.id) db.orders)
    modify (λ db. record db {
      orders = update_where (is_payable o.id) (paid_order external.paid_at) db.orders;
    })
    throw_if (updated == 0 && not (is_paid o.status)) (conflict state_changed_concurrently)
    apply_paid_order_effects o.id
    pure created

  unfoldable pub payment_or_new : Order → Option Payment → Tx Payment
  unfolding record_payment
  payment_or_new o (some existing) = pure existing
  payment_or_new o none = record_payment o

  -- The transaction.
  unfoldable pub confirm_tx : ℕ → Tx Payment
  unfolding payment_or_new
  confirm_tx order = do
    found ← gets (λ db. order_with_id db order)
    o ← or_throw found (not_found order_not_found)
    throw_if (not (o.user_id == user)) forbidden
    throw_if (not (o.total_amount == external.amount)) (bad_request amount_mismatch)
    existing ← gets (λ db. payment_of db o.id)
    payment_or_new o (payment_if (is_paid o.status) existing)

-- What an order's draw is called with: the clock, the identifier of its shipment, the random
-- numbers, and what other transactions do between its steps.
pub record DrawCall : Type 0 where
  pub now : ℕ
  pub fresh_shipment : ℕ
  pub draw_random : ℕ → ℕ → ℕ
  pub others : ℕ → Db → Db

-- A draw that fails leaves the payment alone.
unfoldable pub auto_draw : Cipher → DrawCall → ℕ → ℕ → Db → Option Summary × Db
unfolding execute
auto_draw cipher call user order db =
    elim (execute cipher call.now call.fresh_shipment call.draw_random call.others user order db) [
      | ok (s, db') ↦ (some s, db')
      | err e ↦ (none, db)
    ]

pub record Confirmed : Type 0 where
  pub payment : PaymentView
  pub draw_results : Option Summary

-- `others_before` is what other transactions do between the first reading of the order and the
-- transaction; `confirm_external` is the provider's call, for an order and its amount.
module _ (cipher : Cipher) (call : DrawCall) (provider : ProviderName) (fresh user : ℕ)
    (confirm_external : ℕ → ℕ → Result ConfirmResult) (others_before : Db → Db) where
  draw_for : Payment → Db → Result Confirmed × Db
  unfolding auto_draw
  draw_for p db =
      let drawn = auto_draw cipher call user p.order_id db in
      (ok (record { payment = serialize_payment p; draw_results = drawn.0 }), drawn.1)

  -- A payment that another request has made in the meantime.
  already_paid : ConfirmResult → Option Payment → Db → Result Confirmed × Db
  unfolding draw_for
  already_paid external none db = (err (conflict payment_already_finalized), db)
  already_paid external (some p) db =
      let drawn = draw_for p db in
      if p.provider_tx_id =? external.provider_tx_id
      then drawn
      else (err (conflict payment_already_finalized), db)

  after_tx : ℕ → ConfirmResult → Result (Payment × Db) → Db → Result Confirmed × Db
  unfolding draw_for already_paid
  after_tx order external (ok (p, db')) db = draw_for p db'
  after_tx order external (err unique_violation) db = already_paid external (payment_of db order) db
  after_tx order external (err e) db = (err e, db)

  pay : ℕ → Result ConfirmResult → Db → Result Confirmed × Db
  unfolding after_tx confirm_tx
  pay order (err e) db = (err e, db)
  pay order (ok external) db =
      after_tx order external (confirm_tx provider fresh user external order (others_before db))
        (others_before db)

  pay_if_payable : Order → Db → Result Confirmed × Db
  unfolding pay
  pay_if_payable o db =
      let paying = pay o.id (confirm_external o.id o.total_amount) db in
      if not (is_pending_payment o.status) && not (is_paid o.status)
      then (err (conflict (order_not_payable o.status)), db)
      else paying

  -- The results of an order that has been drawn.
  results_of : Bool → ℕ → Db → Result (Option Summary)
  unfolding find_by_order
  results_of false order db = ok none
  results_of true order db = elim (find_by_order user order db) [
    | ok (s, _) ↦ ok (some s)
    | err e ↦ err e
  ]

  confirm_order : Order → Option Payment → Db → Result Confirmed × Db
  unfolding pay_if_payable results_of
  confirm_order o none db = pay_if_payable o db
  confirm_order o (some p) db = elim (results_of (is_drawn o.status) o.id db) [
    | ok r ↦ (ok (record { payment = serialize_payment p; draw_results = r }), db)
    | err e ↦ (err e, db)
  ]

  confirm_found : Option Order → Db → Result Confirmed × Db
  unfolding confirm_order
  confirm_found none db = (err (not_found order_not_found), db)
  confirm_found (some o) db =
      let confirmed =
        confirm_order o (payment_if (is_paid o.status || is_drawn o.status) (payment_of db o.id))
          db in
      if not (o.user_id == user) then (err forbidden, db) else confirmed

  unfoldable pub confirm : ℕ → Db → Result Confirmed × Db
  unfolding confirm_found
  confirm order db = confirm_found (order_with_id db order) db
