-- ===== src/AdminOrder/Shipments.antt =====
-- An operator moves the shipment of an order (apps/backend/src/payment/admin-order.controller.ts:
-- updateOrderShipment, decryptShipment).
pub mod Agreement
use lucky_draw.Common.{
  ℕ, Bool, true, false, not, Option, none, some, List, [], ◌∷◌, ◌==◌, if◌then◌else◌, find,
  update_where,
}
use lucky_draw.Model.{
  Db, Shipment, ShipmentStatus, Result, ok, err, conflict, not_found, shipment_not_found,
  update_payload_required, invalid_shipment_transition,
}
use lucky_draw.Tx.{Tx, pure, gets, or_throw, modify, throw_if, lift, ◌>>=◌, ◌>>◌}
use lucky_draw.Cipher.{Cipher, Table, decrypt_address}
use lucky_draw.Shipment.{
  UpdateShipment, same_status, includes, next_status, stamp, fill_in, is_empty_update, announce,
}

-- ALLOWED_SHIPMENT_TRANSITIONS, this file's own table.
unfoldable pub allowed_transitions : ShipmentStatus → List ShipmentStatus
allowed_transitions ShipmentStatus.pending =
    ShipmentStatus.preparing ∷ ShipmentStatus.on_hold ∷ ShipmentStatus.cancelled
    ∷ ShipmentStatus.failed ∷ []
allowed_transitions ShipmentStatus.preparing =
    ShipmentStatus.invoice_registered ∷ ShipmentStatus.shipped ∷ ShipmentStatus.on_hold
    ∷ ShipmentStatus.cancelled ∷ ShipmentStatus.failed ∷ []
allowed_transitions ShipmentStatus.invoice_registered =
    ShipmentStatus.shipped ∷ ShipmentStatus.on_hold ∷ ShipmentStatus.cancelled
    ∷ ShipmentStatus.failed ∷ []
allowed_transitions ShipmentStatus.shipped =
    ShipmentStatus.in_transit ∷ ShipmentStatus.delivered ∷ ShipmentStatus.on_hold
    ∷ ShipmentStatus.returned ∷ ShipmentStatus.failed ∷ []
allowed_transitions ShipmentStatus.in_transit =
    ShipmentStatus.delivered ∷ ShipmentStatus.on_hold ∷ ShipmentStatus.returned
    ∷ ShipmentStatus.failed ∷ []
allowed_transitions ShipmentStatus.on_hold =
    ShipmentStatus.preparing ∷ ShipmentStatus.invoice_registered ∷ ShipmentStatus.shipped
    ∷ ShipmentStatus.cancelled ∷ ShipmentStatus.failed ∷ []
allowed_transitions _ = []

unfoldable pub advance : ℕ → Option ShipmentStatus → Shipment → Result Shipment
unfolding allowed_transitions
advance now none s = ok s
advance now (some next) s =
    if same_status next s.status
    then ok s
    else if not (includes (allowed_transitions s.status) next)
    then err (conflict (invalid_shipment_transition s.status next))
    else ok (stamp now next s)

unfoldable pub update_order_shipment : ℕ → ℕ → UpdateShipment → Tx Shipment
unfolding advance announce
update_order_shipment now order dto = do
  found ← gets (λ db. find (λ (s : Shipment). s.order_id == order) db.shipments)
  shipment ← or_throw found (not_found shipment_not_found)
  throw_if (is_empty_update dto) (not_found update_payload_required)
  moved ← lift (advance now (next_status dto) shipment)
  let updated = fill_in dto moved
  modify (λ db. record db {
    shipments = update_where (λ (s : Shipment). s.id == shipment.id) (λ _. updated) db.shipments;
  })
  modify (announce order (next_status dto))
  pure updated

unfoldable pub decrypt_shipment : Cipher → Shipment → Result Shipment
decrypt_shipment cipher s = elim (decrypt_address cipher Table.shipment s.fields) [
  | err e ↦ err e
  | ok fields ↦ ok (record s { fields = fields })
]
