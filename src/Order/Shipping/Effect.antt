-- ===== src/Order/Shipping/Effect.antt =====
-- Resolving the address of an order writes at most to the table of addresses.
use lucky_draw.Common.{
  ℕ, ◌≡◌, Bool, true, false, List, Option, none, some, arith, find, ◌==◌, Option-cases, inl, inr,
}
use lucky_draw.Model.{Db, Address, ShippingAddress, ok}
use lucky_draw.Cipher.{Cipher}
use lucky_draw.Order.Shipping.{
  CreateOrder, saved_address, inline_address, resolve, resolve_shipping,
}

module _ (cipher : Cipher) (fresh user now : ℕ) where
  saved :
      (id : ℕ) (db : Db) {a : ShippingAddress} {mid : Db}
      → saved_address cipher fresh user now id db ≡ ok (a, mid)
      → mid ≡ db
  unfolding saved_address
  saved id db h = elim (Option-cases (find (λ (x : Address). x.id == id) db.addresses)) [
    | inl e ↦ ground arith
    | inr (x, e) ↦ ground arith
  ]

  inline :
      (save : Bool) (given : Option ShippingAddress) (db : Db) {a : ShippingAddress} {mid : Db}
      → inline_address cipher fresh user now save given db ≡ ok (a, mid)
      → mid ≡ record db { addresses = mid.addresses }
  unfolding inline_address
  inline save none db h = ground arith
  inline true (some x) db h = ground arith
  inline false (some x) db h = ground arith

  pub resolve_shipping-addresses :
      (dto : CreateOrder) (db : Db) {a : ShippingAddress} {mid : Db}
      → resolve_shipping cipher fresh user now dto db ≡ ok (a, mid)
      → (rows : List Address) × (mid ≡ record db { addresses = rows })
  unfolding resolve_shipping
  resolve_shipping-addresses dto db {mid = mid} h = elim (Option-cases dto.address_id) [
    | inl e ↦
        (mid.addresses, inline dto.save_address dto.shipping_address db (rw (e, resolve) at h))
    | inr (id, e) ↦ (db.addresses, saved id db (rw (e, resolve) at h))
  ]
