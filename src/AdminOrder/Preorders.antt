-- ===== src/AdminOrder/Preorders.antt =====
-- Which preorders an arrival of goods serves (apps/backend/src/payment/admin-order.controller.ts:
-- parseArrivalQuantity, buildPreorderFulfillmentPlan, preorderFulfillmentPreview,
-- selectPreorderFulfillmentTargets).
pub mod Fifo
pub mod Disjoint
use lucky_draw.Common.{
  ℕ, zero, suc, ◌+◌, Bool, true, false, not, ◌&&◌, ◌||◌, Option, none, some, List, [], ◌∷◌, ◌++◌,
  map, ltb, leb, ◌==◌, ◌=?◌, is_none, or_zero, if◌then◌else◌, find, select, update_where, contains,
  length,
}
use lucky_draw.Model.{
  Db, Product, Order, OrderItem, ItemStatus, Payment, Shipment, ShipmentStatus, is_general, is_paid,
  is_payment_paid, is_shipment_pending, Result, ok, err, bad_request, not_found, conflict,
  arrival_quantity_invalid, product_not_found, product_not_preorder,
}
use lucky_draw.Tx.{Tx, pure, gets, or_throw, modify, throw_if, lift, ◌>>=◌, ◌>>◌}
use lucky_draw.Payment.{order_with_id, payment_of}

-- `none` stands for what is no integer, or a negative one.
abbrev pub parse_arrival : Option ℕ → Result ℕ
parse_arrival none = err (bad_request arrival_quantity_invalid)
parse_arrival (some zero) = err (bad_request arrival_quantity_invalid)
parse_arrival (some (suc n)) = ok (suc n)

abbrev pub is_pending_item : ItemStatus → Bool
is_pending_item ItemStatus.pending = true
is_pending_item ItemStatus.ready_to_fulfill = false

abbrev is_paid_option : Option Order → Bool
is_paid_option none = false
is_paid_option (some o) = is_paid o.status

abbrev has_paid : Option Payment → Bool
has_paid none = false
has_paid (some p) = is_payment_paid p.status

-- An item of the product that waits, has a number, and is in a paid order.
abbrev pub is_queued : Db → ℕ → OrderItem → Bool
is_queued db product i =
    i.product_id =? product
    && is_pending_item i.item_status
    && not (is_none i.paid_sequence)
    && is_paid_option (order_with_id db i.order_id)
    && has_paid (payment_of db i.order_id)

-- `orderBy: [{ paidSequence: 'asc' }, { createdAt: 'asc' }, { id: 'asc' }]`
abbrev pub goes_first : OrderItem → OrderItem → Bool
goes_first a b =
    if ltb (or_zero a.paid_sequence) (or_zero b.paid_sequence)
    then true
    else if ltb (or_zero b.paid_sequence) (or_zero a.paid_sequence)
    then false
    else if ltb a.created_at b.created_at
    then true
    else if ltb b.created_at a.created_at
    then false
    else leb a.id b.id

abbrev pub enqueue : OrderItem → List OrderItem → List OrderItem
enqueue a [] = a ∷ []
enqueue a (x ∷ xs) = if goes_first a x then a ∷ x ∷ xs else x ∷ enqueue a xs

unfoldable pub in_order : List OrderItem → List OrderItem
in_order [] = []
in_order (x ∷ xs) = enqueue x (in_order xs)

-- The state of the loop; the client gets views of the rows.
pub record Split : Type 0 where
  pub selected : List OrderItem
  pub waiting : List OrderItem
  pub quantity : ℕ
  pub selecting : Bool

abbrev pub split_row : ℕ → Split → OrderItem → Split
split_row arrival s row =
    if s.selecting && leb (s.quantity + row.quantity) arrival
    then record s { selected = s.selected ++ row ∷ []; quantity = s.quantity + row.quantity }
    else record s { selecting = false; waiting = s.waiting ++ row ∷ [] }

unfoldable pub split_rows : ℕ → Split → List OrderItem → Split
split_rows arrival s [] = s
split_rows arrival s (row ∷ rows) = split_rows arrival (split_row arrival s row) rows

abbrev pub nothing_split : Split
nothing_split = record { selected = []; waiting = []; quantity = 0; selecting = true }

pub record Plan : Type 0 where
  pub product : Product
  pub selected_quantity : ℕ
  pub selected : List OrderItem
  pub waiting : List OrderItem

abbrev pub plan_of : Product → Split → Plan
plan_of p s = record {
  product = p;
  selected_quantity = s.quantity;
  selected = s.selected;
  waiting = s.waiting;
}

abbrev pub queue : Db → ℕ → List OrderItem
queue db product = in_order (select (is_queued db product) db.order_items)

unfoldable pub build_plan : ℕ → ℕ → Tx Plan
unfolding in_order split_rows
build_plan product arrival = do
  found ← gets (λ db. find (λ (p : Product). p.id == product) db.products)
  p ← or_throw found (not_found product_not_found)
  throw_if (is_general p.type) (conflict product_not_preorder)
  rows ← gets (λ db. queue db product)
  pure (plan_of p (split_rows arrival nothing_split rows))

unfoldable pub preview : ℕ → Option ℕ → Tx Plan
unfolding build_plan
preview product raw = do arrival ← lift (parse_arrival raw); build_plan product arrival

abbrev pub item_id : OrderItem → ℕ
item_id i = i.id

abbrev pub order_of_item : OrderItem → ℕ
order_of_item i = i.order_id

-- The rows that the two updates change.
abbrev pub is_target : List ℕ → OrderItem → Bool
is_target ids i = contains ids i.id && is_pending_item i.item_status

abbrev pub make_ready : OrderItem → OrderItem
make_ready i = record i { item_status = ItemStatus.ready_to_fulfill }

abbrev pub is_target_shipment : List ℕ → Shipment → Bool
is_target_shipment orders s = contains orders s.order_id && is_shipment_pending s.status

abbrev pub prepare : Shipment → Shipment
prepare s = record s { status = ShipmentStatus.preparing }

-- `if (selectedIds.length > 0)`: updates by an empty list of identifiers change nothing.
abbrev pub mark : List OrderItem → Db → Db
mark [] db = db
mark (i ∷ items) db = record db {
  order_items = update_where (is_target (map item_id (i ∷ items))) make_ready db.order_items;
  shipments =
      update_where (is_target_shipment (map order_of_item (i ∷ items))) prepare db.shipments;
}

unfoldable pub select_targets : ℕ → Option ℕ → Tx Plan
unfolding build_plan
select_targets product raw = do
  arrival ← lift (parse_arrival raw)
  plan ← build_plan product arrival
  modify (mark plan.selected)
  pure plan
