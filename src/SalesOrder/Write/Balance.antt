-- ===== src/SalesOrder/Write/Balance.antt =====
-- The money and the stock of an order of products.
use lucky_draw.Common.{ℕ, ◌+◌, ◌≡◌, false, List, ◌++◌, map, arith, contains}
use lucky_draw.Model.{Db, Order, OrderItem, ok}
use lucky_draw.Cipher.{Cipher}
use lucky_draw.Order.Sound.Cancel.{order_id}
use lucky_draw.SalesOrder.Cart.Merge.{quantity_of}
use lucky_draw.SalesOrder.Cart.Stocks.{stock_of, pieces_of, value_of, all_pieces}
use lucky_draw.SalesOrder.Cart.Asked.{demand}
use lucky_draw.SalesOrder.Write.{SalesRequest, CreateSalesOrder, create_tx}
use lucky_draw.SalesOrder.Write.Placed.{create_tx-SalesPlaced}

-- If the identifier of the new order is not taken, an order of products that goes through adds lines
-- that hold, of every product, as many pieces as the request's items together ask for; the order's
-- total is what the lines cost and its count is that of their pieces; the stock of a product that is
-- sold from its stock goes down by exactly the pieces asked for, and no other stock changes.
pub create_tx-balance :
    (cipher : Cipher) (r : SalesRequest) (dto : CreateSalesOrder) (db : Db) {o : Order} {db' : Db}
    → create_tx cipher r dto db ≡ ok (o, db')
    → contains (map order_id db.orders) r.fresh_order ≡ false
    → (lines : List OrderItem) × (db'.order_items ≡ db.order_items ++ lines)
      × (o.total_amount ≡ value_of lines)
      × (o.ticket_count ≡ all_pieces lines)
      × ((k : ℕ)
          → (pieces_of k lines ≡ quantity_of k dto.items)
            × (stock_of k db'.products + demand db.products dto.items k ≡ stock_of k db.products))
create_tx-balance cipher r dto db h new =
    let placed = create_tx-SalesPlaced cipher r dto db h new in
    (
      placed.cart.lines,
      placed.with_lines,
      ground (arith, placed.ordered, placed.sums),
      ground (arith, placed.ordered, placed.sums),
      placed.held,
    )
