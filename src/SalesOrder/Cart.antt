-- ===== src/SalesOrder/Cart.antt =====
-- The lines of an order of products, their prices and their stock
-- (apps/backend/src/sales-order/sales-order.service.ts: mergeItems, assertPurchasable,
-- nextReservationSequence, and the loop of createTransactional).
pub mod Merge
pub mod Stocks
pub mod Asked
use lucky_draw.Common.{
  ℕ, ◌+◌, ◌-◌, ◌*◌, Bool, true, false, not, ◌&&◌, String, Option, none, some, List, [], ◌∷◌, ◌++◌,
  map, ltb, leb, ◌==◌, ◌=?◌, after?, before?, or_zero, if◌then◌else◌, find, select, count_where,
  update_where, max_where, contains, length,
}
use lucky_draw.Model.{
  Db, Product, OrderItem, ItemStatus, ProductType, is_general, is_product_on_sale, Result, ok, err,
  bad_request, conflict, not_found, internal, products_not_found, product_not_on_sale,
  product_not_started, product_ended, product_out_of_stock,
}
use lucky_draw.Tx.{Tx, pure, gets, or_throw, modify, throw_if, lift, ◌>>=◌, ◌>>◌}

-- `SalesOrderItemDto`; the decorators have checked that the quantity is 1 to 999.
pub record Item : Type 0 where
  pub product_id : ℕ
  pub quantity : ℕ

-- `merged.set(id, (merged.get(id) ?? 0) + quantity)`: a `Map` keeps the order of insertion.
unfoldable pub add_item : Item → List Item → List Item
add_item i [] = i ∷ []
add_item i (x ∷ xs) =
    if x.product_id == i.product_id
    then record x { quantity = x.quantity + i.quantity } ∷ xs
    else x ∷ add_item i xs

unfoldable pub merge_into : List Item → List Item → List Item
unfolding add_item
merge_into merged [] = merged
merge_into merged (i ∷ items) = merge_into (add_item i merged) items

unfoldable pub merge_items : List Item → List Item
unfolding merge_into
merge_items items = merge_into [] items

unfoldable pub assert_purchasable : ℕ → ℕ → Product → Result (Unit {0})
assert_purchasable now quantity p =
    if not (is_product_on_sale p.sale_status)
    then err (bad_request (product_not_on_sale p.name))
    else if after? p.sale_start_at now
    then err (bad_request (product_not_started p.name))
    else if before? p.sale_end_at now
    then err (bad_request (product_ended p.name))
    else if is_general p.type && ltb p.stock quantity
    then err (conflict (product_out_of_stock p.name))
    else ok tt

abbrev pub product_id : Item → ℕ
product_id i = i.product_id

abbrev pub is_ordered : List Item → Product → Bool
is_ordered items p = contains (map product_id items) p.id

-- The condition of the update of the stock, and the update.
abbrev pub has_stock : ℕ → ℕ → Product → Bool
has_stock id quantity p = p.id == id && leb quantity p.stock && is_product_on_sale p.sale_status

abbrev pub take : ℕ → Product → Product
take quantity p = record p { stock = p.stock - quantity }

unfoldable pub take_stock : Bool → ℕ → ℕ → String → Tx (Unit {0})
take_stock false id quantity name = pure tt
take_stock true id quantity name = do
  updated ← gets (λ db. count_where (has_stock id quantity) db.products)
  modify (λ db. record db {
    products = update_where (has_stock id quantity) (take quantity) db.products;
  })
  throw_if (not (updated == 1)) (conflict (product_out_of_stock name))

abbrev pub is_item_of : ℕ → OrderItem → Bool
is_item_of product i = i.product_id =? product

abbrev pub reservation : OrderItem → Option ℕ
reservation i = i.reservation_sequence

abbrev pub next_reservation : ℕ → List OrderItem → ℕ
next_reservation product items = or_zero (max_where (is_item_of product) reservation items) + 1

abbrev pub reservation_for : ProductType → ℕ → Db → Option ℕ
reservation_for ProductType.preorder product db = some (next_reservation product db.order_items)
reservation_for ProductType.general product db = none

-- `totalAmount`, `totalQuantity` and `orderItemData`.
pub record Cart : Type 0 where
  pub amount : ℕ
  pub quantity : ℕ
  pub lines : List OrderItem

abbrev pub empty_cart : Cart
empty_cart = record { amount = 0; quantity = 0; lines = [] }

-- The order, the time, and the identifiers that the database gives to its lines.
module _ (now order : ℕ) (fresh_item : ℕ → ℕ) where
  abbrev pub new_line : ℕ → Product → ℕ → Option ℕ → OrderItem
  new_line index p quantity sequence = record {
    id = fresh_item index;
    order_id = order;
    product_id = some p.id;
    product_name_snapshot = p.name;
    price_snapshot = p.price;
    quantity = quantity;
    item_status = ItemStatus.pending;
    reservation_sequence = sequence;
    paid_sequence = none;
    created_at = now;
  }

  abbrev pub add_line : Cart → Product → ℕ → Option ℕ → Cart
  add_line cart p quantity sequence = record {
    amount = cart.amount + p.price * quantity;
    quantity = cart.quantity + quantity;
    lines = cart.lines ++ new_line (length cart.lines) p quantity sequence ∷ [];
  }

  -- The body of the loop over the merged items. The rows were read before it; a product that is
  -- missing there is a TypeError.
  unfoldable pub buy : List Product → Cart → Item → Tx Cart
  unfolding assert_purchasable take_stock
  buy rows cart item = do
    p ←
        or_throw (find (λ (p : Product). p.id == item.product_id) rows)
          (internal products_not_found)
    lift (assert_purchasable now item.quantity p)
    take_stock (is_general p.type) p.id item.quantity p.name
    sequence ← gets (reservation_for p.type p.id)
    pure (add_line cart p item.quantity sequence)

  unfoldable pub buy_all : List Product → Cart → List Item → Tx Cart
  unfolding buy
  buy_all rows cart [] = pure cart
  buy_all rows cart (item ∷ items) = buy rows cart item >>= λ c. buy_all rows c items

  -- `findMany` of the products, and the loop.
  unfoldable pub fill_cart : List Item → Tx Cart
  unfolding buy_all
  fill_cart items = do
    rows ← gets (λ db. select (is_ordered items) db.products)
    throw_if (not (length rows == length items)) (not_found products_not_found)
    buy_all rows empty_cart items
