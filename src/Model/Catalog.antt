-- ===== src/Model/Catalog.antt =====
-- Kuji events, prize tiers, inventories, tickets and products (apps/backend/prisma/schema.prisma).
-- Identifiers are only compared, so they are numbers; a date is its count of milliseconds. Columns
-- that no service reads back (createdAt, updatedAt where no query orders by it) are left out.
use Prim.Native.Nat.{ℕ}
use Prim.Native.String.{String}
use mathlib.Core.Bool.{Bool}
use mathlib.Core.Option.{Option}
use lucky_draw.Model.Status.{TicketStatus, KujiStatus, ProductType, ProductSaleStatus}

pub record KujiEvent : Type 0 where
  pub id : ℕ
  pub title : String
  pub price_per_ticket : ℕ
  pub total_tickets : ℕ
  pub sold_tickets : ℕ
  pub per_user_limit : Option ℕ
  pub sale_start_at : ℕ
  pub sale_end_at : ℕ
  pub status : KujiStatus

pub record PrizeTier : Type 0 where
  pub id : ℕ
  pub kuji_event_id : ℕ
  pub rank : String
  pub name : String
  pub is_last_prize : Bool
  pub total_quantity : ℕ
  pub animation_preset : Option String

pub record PrizeItem : Type 0 where
  pub id : ℕ
  pub prize_tier_id : ℕ

pub record Inventory : Type 0 where
  pub id : ℕ
  pub prize_tier_id : ℕ
  pub remaining_quantity : ℕ
  pub version : ℕ

pub record Ticket : Type 0 where
  pub id : ℕ
  pub kuji_event_id : ℕ
  pub position : ℕ
  pub prize_tier_id : ℕ
  pub prize_item_id : Option ℕ
  pub status : TicketStatus
  pub reserved_by_user_id : Option ℕ
  pub reserved_at : Option ℕ
  pub reserve_expires_at : Option ℕ
  pub order_id : Option ℕ

pub record Product : Type 0 where
  pub id : ℕ
  pub name : String
  pub type : ProductType
  pub price : ℕ
  pub stock : ℕ
  pub sale_status : ProductSaleStatus
  pub sale_start_at : Option ℕ
  pub sale_end_at : Option ℕ
