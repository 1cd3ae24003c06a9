-- ===== src/Tests/Sales.antt =====
-- Orders of products in the small shop.
use lucky_draw.Common.{ℕ, ◌+◌, ◌≡◌, refl, true, none, some, List, [], ◌∷◌, ◌++◌, Distinct}
use lucky_draw.Model.{
  Db, Order, OrderItem, Payment, PaymentStatus, Product, ProductType, ProductSaleStatus,
  DeliveryMethod, ok,
}
use lucky_draw.Payment.Deposit.{confirm_deposit}
use lucky_draw.SalesOrder.Cart.{Item, product_id, merge_items}
use lucky_draw.SalesOrder.Cart.Merge.{quantity_of, merge_items_lem}
use lucky_draw.SalesOrder.Cart.Stocks.{stock_of, pieces_of, value_of, all_pieces}
use lucky_draw.SalesOrder.Cart.Asked.{demand}
use lucky_draw.SalesOrder.Write.{SalesRequest, CreateSalesOrder, create_tx, new_sales_order}
use lucky_draw.SalesOrder.Write.Balance.{create_tx-balance}
use lucky_draw.SalesOrder.Write.Confirmable.{create_tx-confirm_deposit}
use lucky_draw.Tests.Fixtures.{empty_shop, home, plain, state_of}

abbrev product : ℕ → ProductType → ℕ → ℕ → Product
product id type price stock = record {
  id = id;
  name = "figure";
  type = type;
  price = price;
  stock = stock;
  sale_status = ProductSaleStatus.on_sale;
  sale_start_at = none;
  sale_end_at = some 1000;
}

abbrev pub store : Db
store = record empty_shop {
  products = product 40 ProductType.general 300 10 ∷ product 41 ProductType.preorder 500 0 ∷ [];
}

abbrev item : ℕ → ℕ → Item
item id n = record { product_id = id; quantity = n }

abbrev items : List Item
items = item 40 2 ∷ item 41 1 ∷ item 40 3 ∷ []

abbrev pub sales_request : SalesRequest
sales_request = record {
  user = 7;
  now = 20;
  key = 1000;
  number = "SO1";
  fresh_order = 500;
  fresh_address = 600;
  fresh_item = λ i. 700 + i;
  fresh_payment = 800;
  fresh_delivery = 900;
}

abbrev pub wish : CreateSalesOrder
wish = record {
  items = items;
  delivery_method = DeliveryMethod.shipping;
  address_id = none;
  shipping_address = some home;
  save_address = true;
  depositor_name = some "Kim";
  payment_method = none;
}

abbrev ordered : Order
ordered =
    new_sales_order plain sales_request wish (record { amount = 2000; quantity = 6; lines = [] })
      (some home)

abbrev pub sold : Db
sold = state_of (create_tx plain sales_request wish store)

five_and_one : merge_items items ≡ item 40 5 ∷ item 41 1 ∷ []
unfolding merge_items
five_and_one = refl

total_and_stock : create_tx plain sales_request wish store ≡ ok (ordered, sold)
unfolding create_tx
total_and_stock = refl

merge_items_lem_example :
    Distinct product_id (merge_items items)
    × ((id : ℕ) → quantity_of id (merge_items items) ≡ quantity_of id items)
merge_items_lem_example = merge_items_lem items

create_tx-balance_example :
    (lines : List OrderItem) × (sold.order_items ≡ [] ++ lines)
    × (ordered.total_amount ≡ value_of lines)
    × (ordered.ticket_count ≡ all_pieces lines)
    × ((k : ℕ)
        → (pieces_of k lines ≡ quantity_of k items)
          × (stock_of k sold.products + demand store.products items k ≡ stock_of k store.products))
unfolding create_tx
create_tx-balance_example =
    create_tx-balance plain sales_request wish store {o = ordered} {db' = sold} refl refl

create_tx-confirm_deposit_example :
    (p : Payment) × (db'' : Db) × (confirm_deposit 60 3 500 none sold ≡ ok (p, db''))
    × (p.amount ≡ 2000)
    × (p.status ≡ PaymentStatus.paid)
unfolding create_tx
create_tx-confirm_deposit_example =
    create_tx-confirm_deposit plain sales_request wish 60 3 none store {o = ordered} {db' = sold}
      refl refl refl
