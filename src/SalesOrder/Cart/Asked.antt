-- ===== src/SalesOrder/Cart/Asked.antt =====
-- The lines of a cart hold the pieces that were asked for.
use lucky_draw.Common.{
  ℕ, ◌+◌, ◌≡◌, refl, true, false, List, [], ◌∷◌, map, arith, ◌==◌, if◌then◌else◌, find, select,
  contains, sum_where-append, length, Bool-cases, inl, inr,
}
use lucky_draw.Model.{Db, Product, ok}
use lucky_draw.Tx.{>>=-eq-ok}
use lucky_draw.SalesOrder.Cart.{
  Item, Cart, product_id, is_ordered, is_item_of, new_line, buy, buy_all, fill_cart, empty_cart,
}
use lucky_draw.SalesOrder.Cart.Merge.{quantity_of}
use lucky_draw.SalesOrder.Cart.Stocks.{
  pieces, pieces_of, stock_of, is_general_row, find-id, buy-found, fill_cart-ok,
}

module _ (now order : ℕ) (fresh_item : ℕ → ℕ) (rows : List Product) where
  buy-pieces_of :
      (k : ℕ) (cart : Cart) (item : Item) (db : Db) {c : Cart} {db' : Db}
      → buy now order fresh_item rows cart item db ≡ ok (c, db')
      → pieces_of k c.lines
        ≡ pieces_of k cart.lines + (if item.product_id == k then item.quantity else 0)
  buy-pieces_of k cart item db h =
      let (p, sequence, known, next, taken) = buy-found now order fresh_item rows cart item db h in
      ground (
        arith,
        next,
        find-id item.product_id rows p known,
        sum_where-append (is_item_of k) pieces cart.lines
            (new_line now order fresh_item (length cart.lines) p item.quantity sequence ∷ []),
      )

  buy_all-pieces_of :
      (k : ℕ) (items : List Item) (cart : Cart) (db : Db) {c : Cart} {db' : Db}
      → buy_all now order fresh_item rows cart items db ≡ ok (c, db')
      → pieces_of k c.lines ≡ pieces_of k cart.lines + quantity_of k items
  unfolding buy_all
  buy_all-pieces_of k [] cart db h = ground arith
  buy_all-pieces_of k (item ∷ items) cart db h =
      let (next, mid, first, rest) =
        >>=-eq-ok (buy now order fresh_item rows cart item)
          (λ n. buy_all now order fresh_item rows n items) db h in
      ground (arith, buy-pieces_of k cart item db first, buy_all-pieces_of k items next mid rest)

find-select :
    (k : ℕ) (items : List Item) (ps : List Product)
    → contains (map product_id items) k ≡ true
    → find (λ (p : Product). p.id == k) (select (is_ordered items) ps)
      ≡ find (λ (p : Product). p.id == k) ps
find-select k items [] h = refl
find-select k items (p ∷ ps) h = ground (arith, find-select k items ps h)

quantity_of-absent :
    (k : ℕ) (items : List Item)
    → contains (map product_id items) k ≡ false
    → quantity_of k items ≡ 0
quantity_of-absent k [] h = refl
quantity_of-absent k (i ∷ items) h = ground (arith, quantity_of-absent k items)

-- How many pieces leave the stock of a product: those asked for, if it is sold from its stock.
abbrev pub demand : List Product → List Item → ℕ → ℕ
demand ps items k =
    if is_general_row (find (λ (p : Product). p.id == k) ps) then quantity_of k items else 0

pub fill_cart-demand :
    (now order : ℕ) (fresh_item : ℕ → ℕ) (items : List Item) (db : Db) {c : Cart} {db' : Db}
    → fill_cart now order fresh_item items db ≡ ok (c, db')
    → (k : ℕ)
    → (pieces_of k c.lines ≡ quantity_of k items)
      × (stock_of k db'.products + demand db.products items k ≡ stock_of k db.products)
unfolding fill_cart
fill_cart-demand now order fresh_item items db {c = c} {db' = db'} h k =
    let rows = select (is_ordered items) db.products in
    let loop : buy_all now order fresh_item rows empty_cart items db ≡ ok (c, db') = ground arith in
    let held : pieces_of k c.lines ≡ quantity_of k items =
      ground (arith, buy_all-pieces_of now order fresh_item rows k items empty_cart db loop) in
    let moved = (fill_cart-ok now order fresh_item items db h).0 k in
    elim (Bool-cases (contains (map product_id items) k)) [
      | inl e ↦ (held, ground (arith, moved, find-select k items db.products e))
      | inr e ↦ (held, ground (arith, moved, quantity_of-absent k items e))
    ]
