-- ===== src/Tests/Payments.antt =====
-- Payments in the small shop.
use lucky_draw.Common.{arith, Option, ℕ, ◌≡◌, refl, none, some, [], ◌∷◌}
use lucky_draw.Model.{
  OrderItem, ItemStatus, Db, Order, OrderStatus, Payment, PaymentStatus, PaymentMethod,
  ProviderName, Product, ProductType, ProductSaleStatus, Shipment, ShipmentStatus, ok, err,
  conflict, order_not_waiting, cannot_refund,
}
use lucky_draw.Order.Create.{new_order}
use lucky_draw.Shipment.{new_shipment}
use lucky_draw.Payment.{ConfirmResult, payment_of, order_with_id, paid_order, paid_payment}
use lucky_draw.Payment.Effects.{apply_paid_order_effects}
use lucky_draw.Payment.Effects.Queue.{IsNumbered}
use lucky_draw.Payment.Effects.Numbered.{apply_paid_order_effects-IsNumbered}
use lucky_draw.Payment.Confirm.{confirm_tx}
use lucky_draw.Payment.Confirm.Paid.{confirm_tx-confirm_tx}
use lucky_draw.Payment.Deposit.{confirm_deposit}
use lucky_draw.Payment.Deposit.Once.{confirm_deposit-confirm_deposit}
use lucky_draw.Payment.Refund.{check_refund, refund_tx}
use lucky_draw.Payment.Refund.Guard.{refund_tx-check_refund}
use lucky_draw.Tests.Fixtures.{shop, event, home, request, state_of}

abbrev waiting_order : Order
waiting_order = new_order request 1 2 700 "Kim"

abbrev waiting : Db
waiting = record shop {
  kuji_events = record event { sold_tickets = 2 } ∷ [];
  orders = waiting_order ∷ [];
}

abbrev external : ConfirmResult
external = record {
  provider_tx_id = 77;
  amount = 1400;
  method = some PaymentMethod.card;
  paid_at = 50;
}

abbrev card_payment : Payment
card_payment = paid_payment 800 ProviderName.toss 500 77 1400 PaymentMethod.card 50

abbrev paid : Db
paid = state_of (confirm_tx ProviderName.toss 800 7 external 500 waiting)

confirm_tx-confirm_tx_example :
    (card_payment.amount ≡ waiting_order.total_amount)
    × (card_payment.order_id ≡ 500)
    × (payment_of paid 500 ≡ some card_payment)
    × (order_with_id paid 500 ≡ some (paid_order 50 waiting_order))
    × (confirm_tx ProviderName.toss 801 7 (record external { provider_tx_id = 78 }) 500 paid
        ≡ ok (card_payment, paid))
unfolding confirm_tx apply_paid_order_effects
confirm_tx-confirm_tx_example =
    confirm_tx-confirm_tx ProviderName.toss 800 7 external waiting_order 500 801
      (record external { provider_tx_id = 78 }) waiting paid card_payment refl refl refl refl

abbrev transfer : Payment
transfer = record card_payment {
  provider = ProviderName.manual;
  provider_tx_id = none;
  status = PaymentStatus.waiting_deposit;
  method = some PaymentMethod.bank_transfer;
  paid_at = none;
}

abbrev expecting : Db
expecting = record waiting { payments = transfer ∷ [] }

abbrev deposited_payment : Payment
deposited_payment = record transfer {
  status = PaymentStatus.paid;
  paid_at = some 60;
  confirmed_at = some 60;
  confirmed_by_admin_id = some 3;
}

abbrev deposited_db : Db
deposited_db = state_of (confirm_deposit 60 3 500 none expecting)

confirm_deposit-confirm_deposit_example :
    confirm_deposit 70 4 500 (some "Lee") deposited_db
    ≡ err (conflict (order_not_waiting OrderStatus.paid))
unfolding confirm_deposit apply_paid_order_effects
confirm_deposit-confirm_deposit_example =
    confirm_deposit-confirm_deposit 60 70 3 4 500 none (some "Lee") expecting deposited_db
      deposited_payment refl

abbrev parcel : Shipment
parcel = new_shipment 900 500 ShipmentStatus.pending home

abbrev packed : Db
packed = record waiting {
  orders = record waiting_order { status = OrderStatus.drawn } ∷ [];
  payments = card_payment ∷ [];
  shipments = parcel ∷ [];
}

abbrev refunded_db : Db
refunded_db = state_of (refund_tx 3 500 "wish" 90 (some parcel) packed)

refund_tx-check_refund_example :
    check_refund 500 refunded_db ≡ err (conflict (cannot_refund OrderStatus.refunded))
unfolding refund_tx
refund_tx-check_refund_example =
    refund_tx-check_refund 3 500 90 "wish" (some parcel) packed refunded_db
      (record card_payment {
        status = PaymentStatus.refunded;
        refunded_at = some 90;
        refund_reason = some "wish";
        refunded_by_admin_id = some 3;
      })
      {u = tt} refl refl

abbrev line : ℕ → Option ℕ → OrderItem
line id n = record {
  id = id;
  order_id = 500;
  product_id = some 40;
  product_name_snapshot = "figure";
  price_snapshot = 9000;
  quantity = 1;
  item_status = ItemStatus.pending;
  reservation_sequence = none;
  paid_sequence = n;
  created_at = 20;
}

abbrev figure : Product
figure = record {
  id = 40;
  name = "figure";
  type = ProductType.preorder;
  price = 9000;
  stock = 0;
  sale_status = ProductSaleStatus.on_sale;
  sale_start_at = none;
  sale_end_at = none;
}

-- Two preorders of a figure are paid with one order, after a customer with the number 5.
abbrev figures : Db
figures = record waiting {
  products = figure ∷ [];
  order_items = record (line 1 (some 5)) { order_id = 499 } ∷ line 2 none ∷ line 3 none ∷ [];
}

abbrev numbered : Db
numbered = state_of (apply_paid_order_effects 500 figures)

six_and_seven :
    numbered.order_items
    ≡ record (line 1 (some 5)) { order_id = 499 } ∷ line 2 (some 6) ∷ line 3 (some 7) ∷ []
unfolding apply_paid_order_effects
six_and_seven = refl

figures-IsNumbered : IsNumbered figures.order_items
figures-IsNumbered product n = ground arith

apply_paid_order_effects-IsNumbered_example : IsNumbered numbered.order_items
unfolding apply_paid_order_effects
apply_paid_order_effects-IsNumbered_example =
    apply_paid_order_effects-IsNumbered 500 figures numbered {u = tt} refl (ground arith)
      figures-IsNumbered
