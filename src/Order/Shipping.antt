-- ===== src/Order/Shipping.antt =====
-- Where an order goes (apps/backend/src/order/order.service.ts: resolveShipping).
pub mod Effect
use lucky_draw.Common.{
  ℕ, Bool, not, Option, none, some, List, [], ◌∷◌, ◌++◌, ◌==◌, find, count_where, if◌then◌else◌,
}
use lucky_draw.Model.{
  Db, Address, ShippingAddress, forbidden, not_found, bad_request, address_not_found,
  address_required,
}
use lucky_draw.Tx.{Tx, pure, throw, gets, or_throw, modify, throw_if, lift, ◌>>=◌, ◌>>◌}
use lucky_draw.Cipher.{Cipher, Table, without_empty, encrypt_address, decrypt_address}

-- The body of a request (apps/backend/src/order/dto/create-order.dto.ts), which its decorators have
-- checked. `ticket_ids` is empty where the field is missing, and `ticket_count` is none where it is
-- missing or 0.
pub record CreateOrder : Type 0 where
  pub kuji_event_id : ℕ
  pub ticket_count : Option ℕ
  pub ticket_ids : List ℕ
  pub address_id : Option ℕ
  pub shipping_address : Option ShippingAddress
  pub save_address : Bool

module _ (cipher : Cipher) (fresh_address user now : ℕ) where
  unfoldable pub saved_address : ℕ → Tx ShippingAddress
  saved_address id = do
    found ← gets (λ db. find (λ (a : Address). a.id == id) db.addresses)
    addr ← or_throw found (not_found address_not_found)
    throw_if (not (addr.user_id == user)) forbidden
    lift (decrypt_address cipher Table.address (without_empty addr.fields))

  -- The first address of a user becomes the default one.
  unfoldable pub save_address : ShippingAddress → Tx (Unit {0})
  save_address a = do
    count ← gets (λ db. count_where (λ (x : Address). x.user_id == user) db.addresses)
    modify (λ db. record db {
      addresses =
          db.addresses
          ++ record {
            id = fresh_address;
            user_id = user;
            fields = encrypt_address cipher Table.address a;
            is_default = count == 0;
            updated_at = now;
          }
            ∷ [];
    })

  unfoldable pub inline_address : Bool → Option ShippingAddress → Tx ShippingAddress
  unfolding save_address
  inline_address save none = throw (bad_request address_required)
  inline_address save (some a) = do if save then save_address a else pure tt; pure a

  unfoldable pub resolve : Option ℕ → CreateOrder → Tx ShippingAddress
  unfolding saved_address inline_address
  resolve (some id) dto = saved_address id
  resolve none dto = inline_address dto.save_address dto.shipping_address

  unfoldable pub resolve_shipping : CreateOrder → Tx ShippingAddress
  unfolding resolve
  resolve_shipping dto = resolve dto.address_id dto
