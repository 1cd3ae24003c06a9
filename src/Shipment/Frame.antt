-- ===== src/Shipment/Frame.antt =====
-- Creating the shipment of an order touches no table but the shipments.
use lucky_draw.Common.{ℕ, ◌≡◌, Option, none, some, String, List, [], ◌∷◌, ◌++◌, arith}
use lucky_draw.Model.{Db, Shipment, ShippingAddress, ShipmentStatus, ok}
use lucky_draw.Cipher.{Cipher, Table, encrypt_address}
use lucky_draw.Shipment.{insert_shipment, new_shipment, from_address, from_json, create_for_order}

abbrev pub IsShipped : Db → Db → Type 0
IsShipped db db' = (s : List Shipment) × (db' ≡ record db { shipments = s })

insert_shipment-IsShipped :
    (s : Shipment) (db db' : Db) {u : Unit {0}}
    → insert_shipment s db ≡ ok (u, db')
    → IsShipped db db'
unfolding insert_shipment
insert_shipment-IsShipped s db db' {u = u} h = (db.shipments ++ s ∷ [], ground arith)

module _ (cipher : Cipher) (fresh order : ℕ) where
  from_address-IsShipped :
      (a : Option ShippingAddress) (db db' : Db) {u : Unit {0}}
      → from_address cipher fresh order a db ≡ ok (u, db')
      → IsShipped db db'
  unfolding from_address
  from_address-IsShipped none db db' h = (db.shipments, ground arith)
  from_address-IsShipped (some a) db db' {u = u} h =
      insert_shipment-IsShipped
        (new_shipment fresh order ShipmentStatus.pending (encrypt_address cipher Table.shipment a))
        db db' {u = u} h

  from_json-IsShipped :
      (a : Option (Option ShippingAddress)) (db db' : Db) {u : Unit {0}}
      → from_json cipher fresh order a db ≡ ok (u, db')
      → IsShipped db db'
  unfolding from_json
  from_json-IsShipped none db db' h = absurd (ground arith)
  from_json-IsShipped (some a) db db' {u = u} h = from_address-IsShipped a db db' {u = u} h

  pub create_for_order-IsShipped :
      (json : Option String) (db db' : Db) {u : Unit {0}}
      → create_for_order cipher fresh order json db ≡ ok (u, db')
      → IsShipped db db'
  unfolding create_for_order
  create_for_order-IsShipped none db db' h = (db.shipments, ground arith)
  create_for_order-IsShipped (some json) db db' {u = u} h =
      from_json-IsShipped (cipher.decrypt_json json) db db' {u = u} h
