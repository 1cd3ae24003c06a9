-- ===== src/SalesOrder/Cart/Stocks.antt =====
-- What filling a cart takes from the stocks, and what it adds up.
use lucky_draw.Common.{
  ℕ, ◌+◌, ◌*◌, ◌≡◌, refl, Bool, true, false, Option, none, some, List, [], ◌∷◌, arith, ◌==◌,
  if◌then◌else◌, find, select, count_where, sum_where, update_where, length, sum_where-append,
  Option-cases, inl, inr, String,
}
use lucky_draw.Model.{Db, Product, OrderItem, is_general, ok}
use lucky_draw.Tx.{>>=-eq-ok, Result-cases}
use lucky_draw.SalesOrder.Cart.{
  Item, Cart, has_stock, take, take_stock, is_item_of, new_line, add_line, reservation_for,
  assert_purchasable, buy, buy_all, fill_cart, empty_cart, is_ordered,
}

abbrev pub stock_of : ℕ → List Product → ℕ
stock_of id ps = sum_where (λ (p : Product). p.id == id) (λ (p : Product). p.stock) ps

abbrev pub pieces : OrderItem → ℕ
pieces i = i.quantity

-- How many pieces of a product the lines hold.
abbrev pub pieces_of : ℕ → List OrderItem → ℕ
pieces_of id lines = sum_where (is_item_of id) pieces lines

abbrev pub is_general_row : Option Product → Bool
is_general_row none = false
is_general_row (some p) = is_general p.type

-- The lines' pieces of a product that is sold from its stock.
abbrev pub taken_of : List Product → ℕ → List OrderItem → ℕ
taken_of rows id lines =
    if is_general_row (find (λ (p : Product). p.id == id) rows) then pieces_of id lines else 0

-- An update that fits no row, and one that fits a single row.
take_none :
    (k id n : ℕ) (ps : List Product)
    → count_where (has_stock id n) ps ≡ 0
    → stock_of k (update_where (has_stock id n) (take n) ps) ≡ stock_of k ps
take_none k id n [] h = refl
take_none k id n (p ∷ ps) h = ground (arith, take_none k id n ps)

take_one :
    (k id n : ℕ) (ps : List Product)
    → count_where (has_stock id n) ps ≡ 1
    → stock_of k (update_where (has_stock id n) (take n) ps) + (if id == k then n else 0)
      ≡ stock_of k ps
take_one k id n [] h = absurd (omega arith)
take_one k id n (p ∷ ps) h = ground (arith, take_none k id n ps, take_one k id n ps)

-- What a call that may take stock does to the tables.
abbrev pub IsTaken : Bool → ℕ → ℕ → Db → Db → Type 0
IsTaken general id n db db' =
    (db' ≡ record db { products = db'.products })
    × ((k : ℕ)
        → stock_of k db'.products + (if general then (if id == k then n else 0) else 0)
          ≡ stock_of k db.products)

take_stock-IsTaken :
    (general : Bool) (id n : ℕ) (name : String) (db db' : Db) {u : Unit {0}}
    → take_stock general id n name db ≡ ok (u, db')
    → IsTaken general id n db db'
unfolding take_stock
take_stock-IsTaken false id n name db db' h = (ground arith, λ k. ground arith)
take_stock-IsTaken true id n name db db' h =
    (ground arith, λ k. ground (arith, take_one k id n db.products))

pub find-id :
    (id : ℕ) (rows : List Product) (p : Product)
    → find (λ (x : Product). x.id == id) rows ≡ some p
    → p.id ≡ id
find-id id [] p h = absurd (ground arith)
find-id id (x ∷ rows) p h = ground (arith, find-id id rows p)

abbrev pub price_of : OrderItem → ℕ
price_of i = i.price_snapshot * i.quantity

abbrev every : OrderItem → Bool
every i = true

-- What the lines cost together, and how many pieces they hold.
abbrev pub value_of : List OrderItem → ℕ
value_of lines = sum_where every price_of lines

abbrev pub all_pieces : List OrderItem → ℕ
all_pieces lines = sum_where every pieces lines

abbrev pub IsAdded : Cart → Type 0
IsAdded cart = (cart.amount ≡ value_of cart.lines) × (cart.quantity ≡ all_pieces cart.lines)

module _ (now order : ℕ) (fresh_item : ℕ → ℕ) (rows : List Product) where
  pub buy-found :
      (cart : Cart) (item : Item) (db : Db) {c : Cart} {db' : Db}
      → buy now order fresh_item rows cart item db ≡ ok (c, db')
      → (p : Product) × (sequence : Option ℕ) × (find
            (λ (x : Product). x.id == item.product_id)
            rows
          ≡ some p)
        × (c ≡ add_line now order fresh_item cart p item.quantity sequence)
        × IsTaken (is_general p.type) p.id item.quantity db db'
  unfolding buy
  buy-found cart item db {c = c} {db' = db'} h =
      elim (Option-cases (find (λ (x : Product). x.id == item.product_id) rows)) [
        | inl missing ↦ absurd (ground arith)
        | inr (p, known) ↦
            elim (Result-cases (take_stock (is_general p.type) p.id item.quantity p.name db)) [
              | inr (x, e) ↦
                  absurd (ground (arith, Result-cases (assert_purchasable now item.quantity p)))
              | inl ((u, mid), e) ↦
                  let taken =
                    take_stock-IsTaken (is_general p.type) p.id item.quantity p.name db mid {u = u}
                      e in
                  let (same, next) : (db' ≡ mid)
                      × (c
                          ≡ add_line now order fresh_item cart p item.quantity
                              (reservation_for p.type p.id mid)) =
                    ground (arith, Result-cases (assert_purchasable now item.quantity p)) in
                  (p, reservation_for p.type p.id mid, known, next, rw same taken)
            ]
      ]

  -- The steps of the loop move pieces from the stocks to the lines.
  abbrev IsMoved : Cart → Db → Cart → Db → Type 0
  IsMoved cart db c db' =
      (k : ℕ)
      → stock_of k db'.products + taken_of rows k c.lines
        ≡ stock_of k db.products + taken_of rows k cart.lines

  add_line-IsMoved :
      (k : ℕ) (cart : Cart) (p : Product) (n : ℕ) (sequence : Option ℕ)
      → find (λ (x : Product). x.id == p.id) rows ≡ some p
      → taken_of rows k (add_line now order fresh_item cart p n sequence).lines
        ≡ taken_of rows k cart.lines
          + (if is_general p.type then (if p.id == k then n else 0) else 0)
  add_line-IsMoved k cart p n sequence known = ground (
    arith,
    sum_where-append (is_item_of k) pieces cart.lines
        (new_line now order fresh_item (length cart.lines) p n sequence ∷ []),
  )

  add_line-IsAdded :
      (cart : Cart) (p : Product) (n : ℕ) (sequence : Option ℕ)
      → IsAdded cart
      → IsAdded (add_line now order fresh_item cart p n sequence)
  add_line-IsAdded cart p n sequence h = ground (
    arith,
    sum_where-append every price_of cart.lines
        (new_line now order fresh_item (length cart.lines) p n sequence ∷ []),
    sum_where-append every pieces cart.lines
        (new_line now order fresh_item (length cart.lines) p n sequence ∷ []),
  )

  buy-IsMoved :
      (cart : Cart) (item : Item) (db : Db) {c : Cart} {db' : Db}
      → buy now order fresh_item rows cart item db ≡ ok (c, db')
      → IsMoved cart db c db'
        × (IsAdded cart → IsAdded c)
        × (db' ≡ record db { products = db'.products })
  buy-IsMoved cart item db h =
      let (p, sequence, known, next, (kept, taken)) = buy-found cart item db h in
      let by_id = find-id item.product_id rows p known in
      (
        λ k. ground (
          arith,
          next,
          taken k,
          add_line-IsMoved k cart p item.quantity sequence (rw by_id known),
        ),
        λ sums. rw next (add_line-IsAdded cart p item.quantity sequence sums),
        kept,
      )

  buy_all-IsMoved :
      (items : List Item) (cart : Cart) (db : Db) {c : Cart} {db' : Db}
      → buy_all now order fresh_item rows cart items db ≡ ok (c, db')
      → IsMoved cart db c db'
        × (IsAdded cart → IsAdded c)
        × (db' ≡ record db { products = db'.products })
  unfolding buy_all
  buy_all-IsMoved [] cart db h = (λ k. ground arith, λ sums. ground arith, ground arith)
  buy_all-IsMoved (item ∷ items) cart db {c = c} {db' = db'} h =
      let (next, mid, first, rest) =
        >>=-eq-ok (buy now order fresh_item rows cart item)
          (λ n. buy_all now order fresh_item rows n items) db h in
      let one = buy-IsMoved cart item db first in
      let more = buy_all-IsMoved items next mid rest in
      (
        λ k. ground (arith, one.0 k, more.0 k),
        λ sums. more.1 (one.1 sums),
        ground (arith, one.2, more.2),
      )

-- A cart that was filled holds what the stocks have lost: of a product that is sold from its stock
-- as many pieces as its stock went down by, and no other stock changes; its amount is what its lines
-- cost together, and its quantity counts their pieces. Nothing but the products is written.
pub fill_cart-ok :
    (now order : ℕ) (fresh_item : ℕ → ℕ) (items : List Item) (db : Db) {c : Cart} {db' : Db}
    → fill_cart now order fresh_item items db ≡ ok (c, db')
    → ((k : ℕ)
        → stock_of k db'.products + taken_of (select (is_ordered items) db.products) k c.lines
          ≡ stock_of k db.products)
      × IsAdded c
      × (db' ≡ record db { products = db'.products })
unfolding fill_cart
fill_cart-ok now order fresh_item items db {c = c} {db' = db'} h =
    let rows = select (is_ordered items) db.products in
    let loop : buy_all now order fresh_item rows empty_cart items db ≡ ok (c, db') = ground arith in
    let moved = buy_all-IsMoved now order fresh_item rows items empty_cart db loop in
    (λ k. ground (arith, moved.0 k), moved.1 (refl, refl), moved.2)
