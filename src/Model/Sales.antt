-- ===== src/Model/Sales.antt =====
-- Orders, payments, draw results, shipments and addresses (apps/backend/prisma/schema.prisma).
use Prim.Native.Nat.{ℕ}
use Prim.Native.String.{String}
use mathlib.Core.Bool.{Bool}
use mathlib.Core.Option.{Option}
use lucky_draw.Model.Status.{
  OrderStatus, PaymentStatus, ShipmentStatus, DeliveryMethod, PickupStatus,
}

-- The five fields of a delivery address, in plain text or each enciphered.
pub record ShippingAddress : Type 0 where
  pub recipient : String
  pub phone : String
  pub postal_code : String
  pub address_line1 : String
  pub address_line2 : Option String

pub record Address : Type 0 where
  pub user_id : ℕ
  pub id : ℕ
  pub fields : ShippingAddress
  pub is_default : Bool
  pub updated_at : ℕ

-- `shipping_snapshot` is the column's JSON: an `{ enc }` object, or an object in plain text.
pub record Order : Type 0 where
  pub id : ℕ
  pub order_number : Option String
  pub user_id : ℕ
  pub kuji_event_id : Option ℕ
  pub ticket_count : ℕ
  pub unit_price : ℕ
  pub total_amount : ℕ
  pub status : OrderStatus
  pub delivery_method : DeliveryMethod
  pub idempotency_key : ℕ
  pub shipping_snapshot : Option String
  pub created_at : ℕ
  pub paid_at : Option ℕ
  pub drawn_at : Option ℕ
  pub cancelled_at : Option ℕ
  pub completed_at : Option ℕ

-- The two values that the services give to the column.
pub data ItemStatus : Type 0 where
  pending ready_to_fulfill : ItemStatus

pub record OrderItem : Type 0 where
  pub id : ℕ
  pub order_id : ℕ
  pub product_id : Option ℕ
  pub product_name_snapshot : String
  pub price_snapshot : ℕ
  pub quantity : ℕ
  pub item_status : ItemStatus
  pub reservation_sequence : Option ℕ
  pub paid_sequence : Option ℕ
  pub created_at : ℕ

pub data ProviderName : Type 0 where
  manual mock toss : ProviderName

pub data PaymentMethod : Type 0 where
  card bank_transfer : PaymentMethod
  other : String → PaymentMethod

pub record Payment : Type 0 where
  pub id : ℕ
  pub order_id : ℕ
  pub provider : ProviderName
  pub provider_tx_id : Option ℕ
  pub amount : ℕ
  pub status : PaymentStatus
  pub method : Option PaymentMethod
  pub depositor_name : Option String
  pub confirmed_at : Option ℕ
  pub confirmed_by_admin_id : Option ℕ
  pub paid_at : Option ℕ
  pub refunded_at : Option ℕ
  pub refund_reason : Option String
  pub refunded_by_admin_id : Option ℕ

-- The `algorithm` of a draw result's snapshot.
pub data Algorithm : Type 0 where
  preassigned last_prize_bonus weighted_remaining last_prize : Algorithm

pub record DrawResult : Type 0 where
  pub order_id : ℕ
  pub user_id : ℕ
  pub kuji_event_id : ℕ
  pub ticket_index : ℕ
  pub prize_tier_id : ℕ
  pub prize_item_id : Option ℕ
  pub algorithm : Algorithm

pub record Shipment : Type 0 where
  pub id : ℕ
  pub order_id : ℕ
  pub fields : ShippingAddress
  pub carrier : Option String
  pub tracking_number : Option String
  pub status : ShipmentStatus
  pub invoice_registered_at : Option ℕ
  pub hold_reason : Option String
  pub shipped_at : Option ℕ
  pub delivered_at : Option ℕ

pub record Pickup : Type 0 where
  pub id : ℕ
  pub order_id : ℕ
  pub status : PickupStatus
  pub location : Option String
  pub picked_up_at : Option ℕ
  pub confirmed_by_admin_id : Option ℕ

pub data MessageType : Type 0 where
  order_received payment_completed deposit_requested deposit_confirmed : MessageType
  invoice_registered shipping_started shipping_completed : MessageType
  pickup_ready pickup_completed issue_occurred : MessageType

pub data Target : Type 0 where
  user admin : Target

pub record Notification : Type 0 where
  pub user_id : Option ℕ
  pub order_id : ℕ
  pub target_type : Target
  pub message_type : MessageType
