-- ===== src/Payment/Deposit.antt =====
-- An operator confirms a bank transfer (apps/backend/src/payment/payment.service.ts:
-- confirmDepositByAdmin).
pub mod Once
use lucky_draw.Common.{
  ℕ, Bool, true, false, not, Option, none, some, String, List, ◌==◌, find, update_where,
  if◌then◌else◌,
}
use lucky_draw.Model.{
  Db, Order, OrderStatus, Payment, PaymentStatus, MessageType, is_pending_payment, not_found,
  conflict, order_not_found, order_not_waiting, payment_not_found, not_bank_transfer,
  payment_not_confirmable, payment_amount_mismatch,
}
use lucky_draw.Tx.{Tx, pure, gets, or_throw, modify, throw_if, ◌>>=◌, ◌>>◌}
use lucky_draw.Notification.{notify_user}
use lucky_draw.Payment.{order_with_id, payment_of, paid_order}
use lucky_draw.Payment.Effects.{apply_paid_order_effects}
use lucky_draw.Payment.Confirm.{is_manual_transfer}

abbrev pub is_confirmable : PaymentStatus → Bool
is_confirmable PaymentStatus.waiting_deposit = true
is_confirmable PaymentStatus.deposit_check_required = true
is_confirmable PaymentStatus.requested = true
is_confirmable _ = false

abbrev or_old : Option String → Option String → Option String
or_old none old = old
or_old (some new) old = some new

abbrev pub deposited : ℕ → ℕ → Option String → Payment → Payment
deposited now admin depositor p = record p {
  status = PaymentStatus.paid;
  paid_at = some now;
  confirmed_at = some now;
  confirmed_by_admin_id = some admin;
  depositor_name = or_old depositor p.depositor_name;
}

-- The two updates: the payment of the order, and the order.
unfoldable pub set_deposited : ℕ → ℕ → ℕ → Option String → Db → Db
set_deposited now admin order depositor db = record db {
  payments =
      update_where (λ (p : Payment). p.order_id == order) (deposited now admin depositor)
        db.payments;
  orders = update_where (λ (o : Order). o.id == order) (paid_order now) db.orders;
}

unfoldable pub confirm_deposit : ℕ → ℕ → ℕ → Option String → Tx Payment
unfolding set_deposited apply_paid_order_effects notify_user
confirm_deposit now admin order depositor = do
  found ← gets (λ db. order_with_id db order)
  o ← or_throw found (not_found order_not_found)
  throw_if (not (is_pending_payment o.status)) (conflict (order_not_waiting o.status))
  payment ← gets (λ db. payment_of db order)
  p ← or_throw payment (conflict payment_not_found)
  throw_if (not (is_manual_transfer (some p))) (conflict not_bank_transfer)
  throw_if (not (is_confirmable p.status)) (conflict (payment_not_confirmable p.status))
  throw_if (not (p.amount == o.total_amount)) (conflict payment_amount_mismatch)
  modify (set_deposited now admin order depositor)
  apply_paid_order_effects order
  modify (notify_user none order MessageType.deposit_confirmed)
  pure (deposited now admin depositor p)
