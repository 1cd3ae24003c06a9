-- ===== src/Model/Status.antt =====
-- The enums of apps/backend/prisma/schema.prisma, with the comparisons that the services make.
use mathlib.Core.Bool.{Bool, true, false, ◌||◌}

pub data TicketStatus : Type 0 where
  available reserved sold : TicketStatus

pub data KujiStatus : Type 0 where
  draft scheduled on_sale paused sold_out closed : KujiStatus

pub data OrderStatus : Type 0 where
  pending_payment paid drawn completed cancelled refunded failed : OrderStatus

pub data PaymentStatus : Type 0 where
  requested authorized waiting_deposit deposit_check_required paid failed : PaymentStatus
  cancelled refunded partial_refunded : PaymentStatus

pub data ShipmentStatus : Type 0 where
  pending preparing invoice_registered shipped in_transit : ShipmentStatus
  delivered on_hold returned cancelled failed : ShipmentStatus

pub data ProductType : Type 0 where
  preorder general : ProductType

pub data ProductSaleStatus : Type 0 where
  draft on_sale sold_out closed : ProductSaleStatus

pub data DeliveryMethod : Type 0 where
  shipping pickup : DeliveryMethod

pub data PickupStatus : Type 0 where
  waiting completed cancelled : PickupStatus

-- `status === 'RESERVED'` and its kind, one test for each constant that the code compares with.
abbrev pub is_reserved : TicketStatus → Bool
is_reserved TicketStatus.reserved = true
is_reserved _ = false

abbrev pub is_sold : TicketStatus → Bool
is_sold TicketStatus.sold = true
is_sold _ = false

abbrev pub is_on_sale : KujiStatus → Bool
is_on_sale KujiStatus.on_sale = true
is_on_sale _ = false

abbrev pub is_pending_payment : OrderStatus → Bool
is_pending_payment OrderStatus.pending_payment = true
is_pending_payment _ = false

abbrev pub is_paid : OrderStatus → Bool
is_paid OrderStatus.paid = true
is_paid _ = false

abbrev pub is_drawn : OrderStatus → Bool
is_drawn OrderStatus.drawn = true
is_drawn _ = false

-- `{ in: ['PAID', 'DRAWN'] }`
abbrev pub is_paid_or_drawn : OrderStatus → Bool
is_paid_or_drawn s = is_paid s || is_drawn s

-- `{ notIn: ['CANCELLED', 'FAILED', 'REFUNDED'] }`
abbrev pub is_active : OrderStatus → Bool
is_active OrderStatus.cancelled = false
is_active OrderStatus.failed = false
is_active OrderStatus.refunded = false
is_active _ = true

abbrev pub is_payment_refunded : PaymentStatus → Bool
is_payment_refunded PaymentStatus.refunded = true
is_payment_refunded _ = false

abbrev pub is_payment_paid : PaymentStatus → Bool
is_payment_paid PaymentStatus.paid = true
is_payment_paid _ = false

abbrev pub is_shipment_pending : ShipmentStatus → Bool
is_shipment_pending ShipmentStatus.pending = true
is_shipment_pending _ = false

abbrev pub is_shipping : DeliveryMethod → Bool
is_shipping DeliveryMethod.shipping = true
is_shipping _ = false

abbrev pub is_general : ProductType → Bool
is_general ProductType.general = true
is_general _ = false

abbrev pub is_product_on_sale : ProductSaleStatus → Bool
is_product_on_sale ProductSaleStatus.on_sale = true
is_product_on_sale _ = false
