-- ===== src/Shipment.antt =====
-- Shipments: created by a draw (apps/backend/src/shipment/shipment.service.ts: createForOrderInTx)
-- and moved on by an operator (apps/backend/src/shipment/admin-shipment.controller.ts: update).
pub mod Graph
pub mod Stamps
pub mod Frame
use lucky_draw.Common.{
  ℕ, Bool, true, false, not, ◌&&◌, ◌||◌, Option, none, some, String, List, [], ◌∷◌, ◌++◌, ltb, ◌==◌,
  is_none, find, count_where, update_where, if◌then◌else◌,
}
use lucky_draw.Model.{
  Db, Shipment, ShipmentStatus, ShippingAddress, MessageType, Error, Result, ok, err, bad_request,
  conflict, not_found, unique_violation, decrypt_failed, shipment_not_found,
  update_payload_required, invalid_transition,
}
use lucky_draw.Tx.{Tx, pure, throw, gets, or_throw, modify, throw_if, lift, ◌>>=◌, ◌>>◌}
use lucky_draw.Cipher.{Cipher, Table, encrypt_address}
use lucky_draw.Notification.{notify_user, notify_admin}

abbrev pub new_shipment : ℕ → ℕ → ShipmentStatus → ShippingAddress → Shipment
new_shipment id order status fields = record {
  id = id;
  order_id = order;
  fields = fields;
  carrier = none;
  tracking_number = none;
  status = status;
  invoice_registered_at = none;
  hold_reason = none;
  shipped_at = none;
  delivered_at = none;
}

-- `shipment.create`; the column `orderId` is unique.
unfoldable pub insert_shipment : Shipment → Tx (Unit {0})
insert_shipment s = do
  same ← gets (λ db. count_where (λ (x : Shipment). x.order_id == s.order_id) db.shipments)
  throw_if (ltb 0 same) unique_violation
  modify (λ db. record db { shipments = db.shipments ++ s ∷ [] })

module _ (cipher : Cipher) (fresh order : ℕ) where
  -- `parseSnapshot`: no address, no shipment.
  unfoldable pub from_address : Option ShippingAddress → Tx (Unit {0})
  unfolding insert_shipment
  from_address none = pure tt
  from_address (some a) =
      insert_shipment
        (new_shipment fresh order ShipmentStatus.pending (encrypt_address cipher Table.shipment a))

  unfoldable pub from_json : Option (Option ShippingAddress) → Tx (Unit {0})
  unfolding from_address
  from_json none = throw decrypt_failed
  from_json (some a) = from_address a

  unfoldable pub create_for_order : Option String → Tx (Unit {0})
  unfolding from_json
  create_for_order none = pure tt
  create_for_order (some json) = from_json (cipher.decrypt_json json)

-- ALLOWED_TRANSITIONS
unfoldable pub allowed_transitions : ShipmentStatus → List ShipmentStatus
allowed_transitions ShipmentStatus.pending =
    ShipmentStatus.preparing ∷ ShipmentStatus.on_hold ∷ ShipmentStatus.cancelled
    ∷ ShipmentStatus.failed ∷ []
allowed_transitions ShipmentStatus.preparing =
    ShipmentStatus.invoice_registered ∷ ShipmentStatus.shipped ∷ ShipmentStatus.on_hold
    ∷ ShipmentStatus.cancelled ∷ ShipmentStatus.failed ∷ []
allowed_transitions ShipmentStatus.invoice_registered =
    ShipmentStatus.shipped ∷ ShipmentStatus.on_hold ∷ ShipmentStatus.cancelled
    ∷ ShipmentStatus.failed ∷ []
allowed_transitions ShipmentStatus.shipped =
    ShipmentStatus.in_transit ∷ ShipmentStatus.delivered ∷ ShipmentStatus.on_hold
    ∷ ShipmentStatus.returned ∷ ShipmentStatus.failed ∷ []
allowed_transitions ShipmentStatus.in_transit =
    ShipmentStatus.delivered ∷ ShipmentStatus.on_hold ∷ ShipmentStatus.returned
    ∷ ShipmentStatus.failed ∷ []
allowed_transitions ShipmentStatus.on_hold =
    ShipmentStatus.preparing ∷ ShipmentStatus.invoice_registered ∷ ShipmentStatus.shipped
    ∷ ShipmentStatus.cancelled ∷ ShipmentStatus.failed ∷ []
allowed_transitions _ = []

-- `===` on the names of the enum.
abbrev pub status_code : ShipmentStatus → ℕ
status_code ShipmentStatus.pending = 0
status_code ShipmentStatus.preparing = 1
status_code ShipmentStatus.invoice_registered = 2
status_code ShipmentStatus.shipped = 3
status_code ShipmentStatus.in_transit = 4
status_code ShipmentStatus.delivered = 5
status_code ShipmentStatus.on_hold = 6
status_code ShipmentStatus.returned = 7
status_code ShipmentStatus.cancelled = 8
status_code ShipmentStatus.failed = 9

abbrev pub same_status : ShipmentStatus → ShipmentStatus → Bool
same_status a b = status_code a == status_code b

abbrev pub includes : List ShipmentStatus → ShipmentStatus → Bool
includes [] s = false
includes (x ∷ xs) s = same_status x s || includes xs s

-- The body of a request (apps/backend/src/shipment/dto/admin-shipment.dto.ts).
pub record UpdateShipment : Type 0 where
  pub status : Option ShipmentStatus
  pub carrier : Option String
  pub tracking_number : Option String
  pub hold_reason : Option String

-- `dto.status ?? (carrier and trackingNumber ? 'INVOICE_REGISTERED' : undefined)`
abbrev pub next_status : UpdateShipment → Option ShipmentStatus
next_status dto = elim dto.status [
  | some s ↦ some s
  | none ↦
      if not (is_none dto.carrier) && not (is_none dto.tracking_number)
      then some ShipmentStatus.invoice_registered
      else none
]

abbrev pub or_now : Option ℕ → ℕ → Option ℕ
or_now none now = some now
or_now (some t) now = some t

-- The fields that come with a new status.
abbrev pub stamp : ℕ → ShipmentStatus → Shipment → Shipment
stamp now ShipmentStatus.invoice_registered s = record s {
  status = ShipmentStatus.invoice_registered;
  invoice_registered_at = or_now s.invoice_registered_at now;
}
stamp now ShipmentStatus.shipped s = record s {
  status = ShipmentStatus.shipped;
  shipped_at = or_now s.shipped_at now;
}
stamp now ShipmentStatus.delivered s = record s {
  status = ShipmentStatus.delivered;
  delivered_at = or_now s.delivered_at now;
}
stamp now next s = record s { status = next }

-- The transition of one shipment: the guard of the graph, and the stamps.
unfoldable pub advance : ℕ → Option ShipmentStatus → Shipment → Result Shipment
unfolding allowed_transitions
advance now none s = ok s
advance now (some next) s =
    if same_status next s.status
    then ok s
    else if not (includes (allowed_transitions s.status) next)
    then err (conflict (invalid_transition s.status next))
    else ok (stamp now next s)

abbrev or_old : Option String → Option String → Option String
or_old none old = old
or_old (some new) old = some new

abbrev pub fill_in : UpdateShipment → Shipment → Shipment
fill_in dto s = record s {
  carrier = or_old dto.carrier s.carrier;
  tracking_number = or_old dto.tracking_number s.tracking_number;
  hold_reason = or_old dto.hold_reason s.hold_reason;
}

-- The notifications of a new status; they never fail the request.
unfoldable pub announce : ℕ → Option ShipmentStatus → Db → Db
unfolding notify_user notify_admin
announce order (some ShipmentStatus.invoice_registered) db =
    notify_user none order MessageType.invoice_registered db
announce order (some ShipmentStatus.shipped) db =
    notify_user none order MessageType.shipping_started db
announce order (some ShipmentStatus.delivered) db =
    notify_user none order MessageType.shipping_completed db
announce order (some ShipmentStatus.on_hold) db = notify_admin order db
announce order _ db = db

abbrev pub is_empty_update : UpdateShipment → Bool
is_empty_update dto =
    is_none dto.status
    && is_none dto.carrier
    && is_none dto.tracking_number
    && is_none dto.hold_reason

unfoldable pub update : ℕ → ℕ → UpdateShipment → Tx Shipment
unfolding advance announce
update now id dto = do
  found ← gets (λ db. find (λ (s : Shipment). s.id == id) db.shipments)
  shipment ← or_throw found (not_found shipment_not_found)
  throw_if (is_empty_update dto) (bad_request update_payload_required)
  moved ← lift (advance now (next_status dto) shipment)
  let updated = fill_in dto moved
  modify (λ db. record db {
    shipments = update_where (λ (s : Shipment). s.id == id) (λ _. updated) db.shipments;
  })
  modify (announce shipment.order_id (next_status dto))
  pure updated
