-- ===== src/Tests/Operators.antt =====
-- Preorders, a pickup and a shipment in the hands of an operator.
use lucky_draw.Common.{ℕ, ◌≡◌, ◌≤◌, ◌++◌, refl, false, none, some, [], ◌∷◌, All, map, contains}
use lucky_draw.Model.{
  Db, Order, OrderItem, ItemStatus, OrderStatus, PaymentMethod, ProviderName, Product, ProductType,
  ProductSaleStatus, DeliveryMethod, Pickup, PickupStatus, ShipmentStatus, ok,
}
use lucky_draw.Order.Create.{new_order}
use lucky_draw.Payment.{paid_payment}
use lucky_draw.Shipment.{UpdateShipment, new_shipment, update}
use lucky_draw.AdminOrder.Preorders.{Plan, item_id, queue, build_plan, select_targets}
use lucky_draw.AdminOrder.Preorders.Fifo.{total, prefix_of, build_plan-prefix}
use lucky_draw.AdminOrder.Preorders.Disjoint.{select_targets-select_targets}
use lucky_draw.AdminOrder.Pickups.{complete_pickup}
use lucky_draw.AdminOrder.Pickups.Repeated.{complete_pickup-complete_pickup}
use lucky_draw.AdminOrder.Shipments.{update_order_shipment}
use lucky_draw.AdminOrder.Shipments.Agreement.{reworded, update_order_shipment-update}
use lucky_draw.Tests.Fixtures.{empty_shop, home, request, state_of}

abbrev figure : Product
figure = record {
  id = 41;
  name = "figure";
  type = ProductType.preorder;
  price = 500;
  stock = 0;
  sale_status = ProductSaleStatus.on_sale;
  sale_start_at = none;
  sale_end_at = none;
}

abbrev preorder : ℕ → ℕ → ℕ → OrderItem
preorder id sequence n = record {
  id = id;
  order_id = 500;
  product_id = some 41;
  product_name_snapshot = "figure";
  price_snapshot = 500;
  quantity = n;
  item_status = ItemStatus.pending;
  reservation_sequence = none;
  paid_sequence = some sequence;
  created_at = 20;
}

abbrev paid_order : Order
paid_order = record (new_order request 1 2 700 "Kim") {
  status = OrderStatus.paid;
  delivery_method = DeliveryMethod.pickup;
}

abbrev desk : Db
desk = record empty_shop {
  products = figure ∷ [];
  orders = paid_order ∷ [];
  order_items = preorder 3 2 2 ∷ preorder 1 1 2 ∷ preorder 2 3 1 ∷ [];
  payments = paid_payment 800 ProviderName.toss 500 77 1400 PaymentMethod.card 50 ∷ [];
  shipments = new_shipment 900 500 ShipmentStatus.pending home ∷ [];
  pickups =
      record {
        id = 950;
        order_id = 500;
        status = PickupStatus.waiting;
        location = none;
        picked_up_at = none;
        confirmed_by_admin_id = none;
      }
      ∷ [];
}

abbrev plan : Plan
plan = record {
  product = figure;
  selected_quantity = 2;
  selected = preorder 1 1 2 ∷ [];
  waiting = preorder 3 2 2 ∷ preorder 2 3 1 ∷ [];
}

build_plan-prefix_example :
    (plan.selected ≡ prefix_of 3 (queue desk 41))
    × (plan.selected ++ plan.waiting ≡ queue desk 41)
    × (2 ≡ total plan.selected)
    × (total plan.selected ≤ 3)
    × (desk ≡ desk)
unfolding build_plan
build_plan-prefix_example = build_plan-prefix 41 3 desk {plan = plan} {db' = desk} refl

abbrev served : Db
served = state_of (select_targets 41 (some 3) desk)

abbrev next_plan : Plan
next_plan = record {
  product = figure;
  selected_quantity = 3;
  selected = preorder 3 2 2 ∷ preorder 2 3 1 ∷ [];
  waiting = [];
}

select_targets-select_targets_example :
    All (λ (i : OrderItem). contains (map item_id plan.selected) i.id ≡ false) next_plan.selected
unfolding select_targets
select_targets-select_targets_example =
    select_targets-select_targets 41 (some 3) (some 3) desk {plan = plan} {plan' = next_plan}
      {db' = served} {db'' = state_of (select_targets 41 (some 3) served)} refl refl

abbrev handed_over : Pickup
handed_over = record {
  id = 950;
  order_id = 500;
  status = PickupStatus.completed;
  location = some "desk";
  picked_up_at = some 70;
  confirmed_by_admin_id = some 3;
}

complete_pickup-complete_pickup_example :
    complete_pickup 80 4 none 500 (state_of (complete_pickup 70 3 (some "desk") 500 desk))
    ≡ ok (handed_over, state_of (complete_pickup 70 3 (some "desk") 500 desk))
unfolding complete_pickup
complete_pickup-complete_pickup_example =
    complete_pickup-complete_pickup 70 80 3 4 (some "desk") none 500 desk {p = handed_over}
      {db' = state_of (complete_pickup 70 3 (some "desk") 500 desk)} refl

abbrev hold : UpdateShipment
hold = record {
  status = some ShipmentStatus.on_hold;
  carrier = none;
  tracking_number = none;
  hold_reason = some "address";
}

update_order_shipment-update_example :
    update_order_shipment 60 500 hold desk ≡ reworded (update 60 900 hold desk)
update_order_shipment-update_example =
    update_order_shipment-update 60 500 hold (new_shipment 900 500 ShipmentStatus.pending home) desk
      refl refl
