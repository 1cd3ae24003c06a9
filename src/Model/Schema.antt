-- ===== src/Model/Schema.antt =====
-- All tables of the database together.
use mathlib.Core.List.{List}
use lucky_draw.Model.Catalog.{KujiEvent, PrizeTier, PrizeItem, Inventory, Ticket, Product}
use lucky_draw.Model.Sales.{
  Address, Order, OrderItem, Payment, DrawResult, Shipment, Pickup, Notification,
}

pub record Db : Type 0 where
  pub kuji_events : List KujiEvent
  pub prize_tiers : List PrizeTier
  pub prize_items : List PrizeItem
  pub inventories : List Inventory
  pub tickets : List Ticket
  pub products : List Product
  pub addresses : List Address
  pub orders : List Order
  pub order_items : List OrderItem
  pub payments : List Payment
  pub draw_results : List DrawResult
  pub shipments : List Shipment
  pub pickups : List Pickup
  pub notifications : List Notification
