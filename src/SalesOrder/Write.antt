-- ===== src/SalesOrder/Write.antt =====
-- The transaction that places an order of products, and its idempotency key
-- (apps/backend/src/sales-order/sales-order.service.ts: resolveShipping, createTransactional,
-- serializeOrder).
pub mod Placed
pub mod Confirmable
pub mod Balance
use lucky_draw.Common.{
  ℕ, ◌+◌, ◌*◌, ◌/◌, Bool, true, false, not, ◌||◌, String, Option, none, some, List, [], ◌∷◌, ◌++◌,
  ltb, ◌==◌, if◌then◌else◌, find, select, count_where,
}
use text.Mathlib.Text
use lucky_draw.Model.{
  Db, Address, ShippingAddress, Order, OrderItem, OrderStatus, Payment, PaymentStatus,
  PaymentMethod, ProviderName, Shipment, ShipmentStatus, Pickup, PickupStatus, DeliveryMethod,
  MessageType, is_shipping, Error, Result, ok, err, bad_request, conflict, not_found,
  unique_violation, decrypt_failed, order_not_found, shipping_address_required,
  idempotency_key_conflict,
}
use lucky_draw.Tx.{Tx, pure, throw, gets, or_throw, modify, throw_if, lift, ◌>>=◌, ◌>>◌}
use lucky_draw.Cipher.{Cipher, Table, encrypt_address}
use lucky_draw.Notification.{notify_user, notify_admin}
use lucky_draw.Order.Shipping.{saved_address}
use lucky_draw.Payment.{order_with_id, payment_of, insert_payment}
use lucky_draw.Shipment.{new_shipment, insert_shipment}
use lucky_draw.SalesOrder.Cart.{Item, Cart, merge_items, fill_cart}

pub data SalesPaymentMethod : Type 0 where
  bank_transfer card kakao_pay : SalesPaymentMethod

-- The body of a request (apps/backend/src/sales-order/dto/create-sales-order.dto.ts), which its
-- decorators have checked.
pub record CreateSalesOrder : Type 0 where
  pub items : List Item
  pub delivery_method : DeliveryMethod
  pub address_id : Option ℕ
  pub shipping_address : Option ShippingAddress
  pub save_address : Bool
  pub depositor_name : Option String
  pub payment_method : Option SalesPaymentMethod

-- Who asks, when, with which key; the number that `makeOrderNumber` draws, and the identifiers that
-- the database gives to new rows.
pub record SalesRequest : Type 0 where
  pub user : ℕ
  pub now : ℕ
  pub key : ℕ
  pub number : String
  pub fresh_order : ℕ
  pub fresh_address : ℕ
  pub fresh_item : ℕ → ℕ
  pub fresh_payment : ℕ
  pub fresh_delivery : ℕ

-- `dto.paymentMethod ?? BANK_TRANSFER`, compared with BANK_TRANSFER.
abbrev pub is_transfer : Option SalesPaymentMethod → Bool
is_transfer none = true
is_transfer (some SalesPaymentMethod.bank_transfer) = true
is_transfer (some _) = false

-- `Math.round(amount / quantity)`, the quotient rounded with halves up.
abbrev pub unit_price : ℕ → ℕ → ℕ
unit_price amount quantity = if ltb 0 quantity then (2 * amount + quantity) / (2 * quantity) else 0

abbrev pub same_number : Option String → Option String → Bool
same_number (some a) (some b) = Text.◌==◌ a b
same_number _ _ = false

-- The unique columns of an order, `idempotencyKey` and `orderNumber`.
abbrev pub is_same_order : Order → Order → Bool
is_same_order o x =
    x.idempotency_key == o.idempotency_key || same_number x.order_number o.order_number

abbrev new_pickup : ℕ → ℕ → Pickup
new_pickup id order = record {
  id = id;
  order_id = order;
  status = PickupStatus.waiting;
  location = none;
  picked_up_at = none;
  confirmed_by_admin_id = none;
}

-- `pickup.create`; the column `orderId` is unique.
unfoldable pub insert_pickup : Pickup → Tx (Unit {0})
insert_pickup p = do
  same ← gets (λ db. count_where (λ (x : Pickup). x.order_id == p.order_id) db.pickups)
  throw_if (ltb 0 same) unique_violation
  modify (λ db. record db { pickups = db.pickups ++ p ∷ [] })

module _ (cipher : Cipher) (r : SalesRequest) (dto : CreateSalesOrder) where
  -- An address that is saved here is not a default one.
  abbrev pub kept_address : ShippingAddress → Address
  kept_address a = record {
    id = r.fresh_address;
    user_id = r.user;
    fields = encrypt_address cipher Table.address a;
    is_default = false;
    updated_at = r.now;
  }

  unfoldable pub keep_address : Bool → ShippingAddress → Tx (Unit {0})
  keep_address true a = modify (λ db. record db { addresses = db.addresses ++ kept_address a ∷ [] })
  keep_address false a = pure tt

  unfoldable pub inline_address : Option ShippingAddress → Tx ShippingAddress
  unfolding keep_address
  inline_address none = throw (bad_request shipping_address_required)
  inline_address (some a) = do keep_address dto.save_address a; pure a

  unfoldable pub resolve_shipping : Option ℕ → Tx ShippingAddress
  unfolding saved_address inline_address
  resolve_shipping (some id) = saved_address cipher r.fresh_address r.user r.now id
  resolve_shipping none = inline_address dto.shipping_address

  unfoldable pub destination : DeliveryMethod → Tx (Option ShippingAddress)
  unfolding resolve_shipping
  destination DeliveryMethod.pickup = pure none
  destination DeliveryMethod.shipping = do a ← resolve_shipping dto.address_id; pure (some a)

  abbrev snapshot : Option ShippingAddress → Option String
  snapshot none = none
  snapshot (some a) = some (cipher.encrypt_json a r.now)

  abbrev pub new_sales_order : Cart → Option ShippingAddress → Order
  new_sales_order cart shipping = record {
    id = r.fresh_order;
    order_number = some r.number;
    user_id = r.user;
    kuji_event_id = none;
    ticket_count = cart.quantity;
    unit_price = unit_price cart.amount cart.quantity;
    total_amount = cart.amount;
    status = OrderStatus.pending_payment;
    delivery_method = dto.delivery_method;
    idempotency_key = r.key;
    shipping_snapshot = snapshot shipping;
    created_at = r.now;
    paid_at = none;
    drawn_at = none;
    cancelled_at = none;
    completed_at = none;
  }

  abbrev pub awaited_payment : ℕ → Payment
  awaited_payment amount = record {
    id = r.fresh_payment;
    order_id = r.fresh_order;
    provider = ProviderName.manual;
    provider_tx_id = none;
    amount = amount;
    status = PaymentStatus.waiting_deposit;
    method = some PaymentMethod.bank_transfer;
    depositor_name = dto.depositor_name;
    confirmed_at = none;
    confirmed_by_admin_id = none;
    paid_at = none;
    refunded_at = none;
    refund_reason = none;
    refunded_by_admin_id = none;
  }

  unfoldable pub await_deposit : Bool → ℕ → Tx (Unit {0})
  unfolding insert_payment
  await_deposit false amount = pure tt
  await_deposit true amount = do payment ← insert_payment (awaited_payment amount); pure tt

  -- `order.create` with its lines and its payment.
  unfoldable pub insert_sales_order : Cart → Option ShippingAddress → Tx (Unit {0})
  unfolding await_deposit
  insert_sales_order cart shipping = do
    let order = new_sales_order cart shipping
    same ← gets (λ db. count_where (is_same_order order) db.orders)
    throw_if (ltb 0 same) unique_violation
    modify (λ db. record db {
      orders = db.orders ++ order ∷ [];
      order_items = db.order_items ++ cart.lines;
    })
    await_deposit (is_transfer dto.payment_method) cart.amount

  unfoldable pub deliver : DeliveryMethod → Option ShippingAddress → Tx (Unit {0})
  unfolding insert_shipment insert_pickup
  deliver DeliveryMethod.shipping none = throw (bad_request shipping_address_required)
  deliver DeliveryMethod.shipping (some a) = insert_shipment (
      new_shipment r.fresh_delivery r.fresh_order ShipmentStatus.pending
        (encrypt_address cipher Table.shipment a))
  deliver DeliveryMethod.pickup shipping = insert_pickup (new_pickup r.fresh_delivery r.fresh_order)

  unfoldable pub announce : Bool → Db → Db
  unfolding notify_user notify_admin
  announce false db = notify_user (some r.user) r.fresh_order MessageType.order_received db
  announce true db = notify_admin r.fresh_order (
      notify_user (some r.user) r.fresh_order MessageType.deposit_requested
        (notify_user (some r.user) r.fresh_order MessageType.order_received db))

  -- The transaction.
  unfoldable pub create_tx : Tx Order
  unfolding merge_items fill_cart destination insert_sales_order deliver announce
  create_tx = do
    shipping ← destination dto.delivery_method
    cart ← fill_cart r.now r.fresh_order r.fresh_item (merge_items dto.items)
    insert_sales_order cart shipping
    deliver dto.delivery_method shipping
    modify (announce (is_transfer dto.payment_method))
    created ← gets (λ db. order_with_id db r.fresh_order)
    or_throw created (not_found order_not_found)
