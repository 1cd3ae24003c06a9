-- ===== src/SalesOrder/Write/Placed.antt =====
-- What an order of products that goes through has written.
use lucky_draw.Common.{
  ℕ, ◌+◌, ◌≡◌, refl, Bool, true, false, Option, none, some, List, [], ◌∷◌, ◌++◌, map, arith, ◌==◌,
  find, count_where, contains, Option-cases, Bool-cases, inl, inr,
}
use lucky_draw.Model.{
  Db, Address, Order, Payment, ShippingAddress, DeliveryMethod, ok, not_found, order_not_found,
}
use lucky_draw.Tx.{Tx, gets, modify, or_throw, ◌>>=◌, ◌>>◌, >>=-eq-ok, Result-cases}
use lucky_draw.Cipher.{Cipher, without_empty, decrypt_address, Table}
use lucky_draw.Notification.{notify_user, notify_admin}
use lucky_draw.Order.Shipping.{saved_address}
use lucky_draw.Order.Sound.Cancel.{order_id}
use lucky_draw.Payment.{order_with_id, insert_payment, is_clash}
use lucky_draw.Shipment.{insert_shipment}
use lucky_draw.SalesOrder.Cart.{Cart, merge_items, fill_cart}
use lucky_draw.SalesOrder.Cart.Stocks.{stock_of, pieces_of, IsAdded, fill_cart-ok}
use lucky_draw.SalesOrder.Cart.Asked.{demand, fill_cart-demand}
use lucky_draw.SalesOrder.Cart.Merge.{quantity_of, merge_items_lem}
use lucky_draw.SalesOrder.Write.{
  SalesRequest, CreateSalesOrder, is_transfer, new_sales_order, awaited_payment, keep_address,
  inline_address, resolve_shipping, destination, await_deposit, insert_sales_order, deliver,
  insert_pickup, announce, create_tx,
}

pub find-append :
    (id : ℕ) (os : List Order) (o : Order)
    → contains (map order_id os) id ≡ false
    → o.id ≡ id
    → find (λ (x : Order). x.id == id) (os ++ o ∷ []) ≡ some o
find-append id [] o h e = ground arith
find-append id (x ∷ os) o h e = ground (arith, find-append id os o)

module _ (cipher : Cipher) (r : SalesRequest) (dto : CreateSalesOrder) where
  saved :
      (id : ℕ) (db : Db) {a : ShippingAddress} {mid : Db}
      → saved_address cipher r.fresh_address r.user r.now id db ≡ ok (a, mid)
      → mid ≡ db
  unfolding saved_address
  saved id db h = elim (Option-cases (find (λ (x : Address). x.id == id) db.addresses)) [
    | inl e ↦ absurd (ground arith)
    | inr (x, e) ↦
        ground (arith, Result-cases (decrypt_address cipher Table.address (without_empty x.fields)))
  ]

  inline :
      (given : Option ShippingAddress) (db : Db) {a : ShippingAddress} {mid : Db}
      → inline_address cipher r dto given db ≡ ok (a, mid)
      → mid ≡ record db { addresses = mid.addresses }
  unfolding inline_address keep_address
  inline none db h = absurd (ground arith)
  inline (some x) db h = elim (Bool-cases dto.save_address) [
    | inl e ↦ ground arith
    | inr e ↦ ground arith
  ]

  resolved :
      (chosen : Option ℕ) (db : Db) {a : ShippingAddress} {mid : Db}
      → resolve_shipping cipher r dto chosen db ≡ ok (a, mid)
      → mid ≡ record db { addresses = mid.addresses }
  unfolding resolve_shipping
  resolved none db h = inline dto.shipping_address db h
  resolved (some id) db h = ground (arith, saved id db h)

  destination-addresses :
      (method : DeliveryMethod) (db : Db) {a : Option ShippingAddress} {mid : Db}
      → destination cipher r dto method db ≡ ok (a, mid)
      → mid ≡ record db { addresses = mid.addresses }
  unfolding destination
  destination-addresses DeliveryMethod.pickup db h = ground arith
  destination-addresses DeliveryMethod.shipping db {mid = mid} h =
      let (a, next, first, rest) =
        >>=-eq-ok (resolve_shipping cipher r dto dto.address_id) _ db h in
      ground (arith, resolved dto.address_id db first)

  -- The payments after the order: one more if the buyer is to transfer the money.
  abbrev pub IsAwaited : Bool → ℕ → List Payment → List Payment → Type 0
  IsAwaited false amount before after = after ≡ before
  IsAwaited true amount before after =
      (count_where (is_clash (awaited_payment cipher r dto amount)) before ≡ 0)
      × (after ≡ before ++ awaited_payment cipher r dto amount ∷ [])

  abbrev IsInserted : Cart → Option ShippingAddress → Db → Db → Type 0
  IsInserted cart shipping db mid =
      (mid.orders ≡ db.orders ++ new_sales_order cipher r dto cart shipping ∷ [])
      × (mid.order_items ≡ db.order_items ++ cart.lines)
      × (mid.products ≡ db.products)
      × (mid.kuji_events ≡ db.kuji_events)
      × IsAwaited (is_transfer dto.payment_method) cart.amount db.payments mid.payments

  insert_sales_order-ok :
      (cart : Cart) (shipping : Option ShippingAddress) (db : Db) {u : Unit {0}} {mid : Db}
      → insert_sales_order cipher r dto cart shipping db ≡ ok (u, mid)
      → IsInserted cart shipping db mid
  unfolding insert_sales_order await_deposit insert_payment
  insert_sales_order-ok cart shipping db h = elim (Bool-cases (is_transfer dto.payment_method)) [
    | inl e ↦ ground arith
    | inr e ↦ ground arith
  ]

  abbrev IsDelivered : Db → Db → Type 0
  IsDelivered db mid = mid ≡ record db { shipments = mid.shipments; pickups = mid.pickups }

  deliver-IsDelivered :
      (method : DeliveryMethod) (shipping : Option ShippingAddress) (db : Db) {u : Unit {0}}
      {mid : Db}
      → deliver cipher r dto method shipping db ≡ ok (u, mid)
      → IsDelivered db mid
  unfolding deliver insert_shipment insert_pickup
  deliver-IsDelivered DeliveryMethod.shipping none db h = absurd (ground arith)
  deliver-IsDelivered DeliveryMethod.shipping (some a) db h = ground arith
  deliver-IsDelivered DeliveryMethod.pickup shipping db h = ground arith

  -- What is in the tables after an order of products that goes through.
  pub record SalesPlaced (db db' : Db) (o : Order) : Type 0 where
    pub cart : Cart
    pub shipping : Option ShippingAddress
    pub ordered : o ≡ new_sales_order cipher r dto cart shipping
    pub added : db'.orders ≡ db.orders ++ o ∷ []
    pub with_lines : db'.order_items ≡ db.order_items ++ cart.lines
    pub same_events : db'.kuji_events ≡ db.kuji_events
    pub awaited : IsAwaited (is_transfer dto.payment_method) cart.amount db.payments db'.payments
    pub sums : IsAdded cart
    pub held :
        (k : ℕ)
        → (pieces_of k cart.lines ≡ quantity_of k dto.items)
          × (stock_of k db'.products + demand db.products dto.items k ≡ stock_of k db.products)

  announced :
      (b : Bool) (db : Db)
      → announce cipher r dto b db
        ≡ record db { notifications = (announce cipher r dto b db).notifications }
  unfolding announce notify_user notify_admin
  announced true db = refl
  announced false db = refl

  -- The last steps, which read the order back.
  abbrev tail : Tx Order
  tail = do
    modify (announce cipher r dto (is_transfer dto.payment_method))
    created ← gets (λ db. order_with_id db r.fresh_order)
    or_throw created (not_found order_not_found)

  tail-ok :
      (db db' : Db) (o created : Order)
      → order_with_id db r.fresh_order ≡ some created
      → tail db ≡ ok (o, db')
      → (o ≡ created)
        × (db' ≡ record db {
          notifications = (announce cipher r dto (is_transfer dto.payment_method) db).notifications;
        })
  tail-ok db db' o created known h = ground (arith, announced (is_transfer dto.payment_method) db)

  placed :
      (cart : Cart) (shipping : Option ShippingAddress) (db db₁ db₂ db₃ db₄ db' : Db) (o : Order)
      → db₁ ≡ record db { addresses = db₁.addresses }
      → fill_cart r.now r.fresh_order r.fresh_item (merge_items dto.items) db₁ ≡ ok (cart, db₂)
      → IsInserted cart shipping db₂ db₃
      → IsDelivered db₃ db₄
      → tail db₄ ≡ ok (o, db')
      → contains (map order_id db.orders) r.fresh_order ≡ false
      → SalesPlaced db db' o
  placed cart shipping db db₁ db₂ db₃ db₄ db' o to filling inserted delivered h new =
      let (_, sums, kept) =
        fill_cart-ok r.now r.fresh_order r.fresh_item (merge_items dto.items) db₁ filling in
      let order = new_sales_order cipher r dto cart shipping in
      let known : order_with_id db₄ r.fresh_order ≡ some order =
        ground (arith, find-append r.fresh_order db.orders order new refl) in
      let (same, done) = tail-ok db₄ db' o order known h in
      let before : db.payments ≡ db₂.payments = ground arith in
      let after : db'.payments ≡ db₃.payments = ground arith in
      record {
        cart = cart;
        shipping = shipping;
        ordered = same;
        added = ground (arith, inserted.0);
        with_lines = ground (arith, inserted.1);
        same_events = ground (arith, inserted.3);
        awaited = rw (before, after) (inserted.4);
        sums = sums;
        held = λ k.
            let demanded =
              fill_cart-demand r.now r.fresh_order r.fresh_item (merge_items dto.items) db₁ filling
                k in
            ground (arith, demanded, inserted.2, (merge_items_lem dto.items).1 k);
      }

  pub create_tx-SalesPlaced :
      (db : Db) {o : Order} {db' : Db}
      → create_tx cipher r dto db ≡ ok (o, db')
      → contains (map order_id db.orders) r.fresh_order ≡ false
      → SalesPlaced db db' o
  unfolding create_tx
  create_tx-SalesPlaced db {o = o} {db' = db'} h new =
      let (shipping, db₁, first, rest₁) =
        >>=-eq-ok (destination cipher r dto dto.delivery_method) _ db h in
      let (cart, db₂, second, rest₂) =
        >>=-eq-ok (fill_cart r.now r.fresh_order r.fresh_item (merge_items dto.items)) _ db₁
          rest₁ in
      let (u₃, db₃, third, rest₃) =
        >>=-eq-ok (insert_sales_order cipher r dto cart shipping) _ db₂ rest₂ in
      let (u₄, db₄, fourth, last) =
        >>=-eq-ok (deliver cipher r dto dto.delivery_method shipping) _ db₃ rest₃ in
      placed cart shipping db db₁ db₂ db₃ db₄ db' o
        (destination-addresses dto.delivery_method db first) second
        (insert_sales_order-ok cart shipping db₂ {u = u₃} third)
        (deliver-IsDelivered dto.delivery_method shipping db₃ {u = u₄} fourth) last new
