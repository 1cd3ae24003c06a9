-- ===== src/AdminOrder/Shipments/Agreement.antt =====
-- The two ways to move a shipment agree.
use lucky_draw.Common.{
  ℕ, ◌≡◌, refl, Option, none, some, List, [], ◌∷◌, ◌==◌, find, arith, Bool-cases, inl, inr,
}
use lucky_draw.Model.{
  Db, Shipment, ShipmentStatus, Result, Error, ok, err, conflict, bad_request, not_found,
  invalid_transition, invalid_shipment_transition, update_payload_required,
}
use lucky_draw.Tx.{Result-cases}
use lucky_draw.Shipment.{
  UpdateShipment, next_status, is_empty_update, update, same_status, includes,
}
use lucky_draw.Shipment
use lucky_draw.AdminOrder.Shipments.{allowed_transitions, advance, update_order_shipment}

same_table : (s : ShipmentStatus) → allowed_transitions s ≡ Shipment.allowed_transitions s
unfolding allowed_transitions Shipment.allowed_transitions
same_table ShipmentStatus.pending = refl
same_table ShipmentStatus.preparing = refl
same_table ShipmentStatus.invoice_registered = refl
same_table ShipmentStatus.shipped = refl
same_table ShipmentStatus.in_transit = refl
same_table ShipmentStatus.on_hold = refl
same_table ShipmentStatus.delivered = refl
same_table ShipmentStatus.returned = refl
same_table ShipmentStatus.cancelled = refl
same_table ShipmentStatus.failed = refl

-- The operator's route refuses a move with a text of its own, and an empty update with another error.
abbrev pub reword : Error → Error
reword (conflict (invalid_transition s t)) = conflict (invalid_shipment_transition s t)
reword (bad_request update_payload_required) = not_found update_payload_required
reword e = e

abbrev pub reworded : {A : Type 0} → Result A → Result A
reworded (ok a) = ok a
reworded (err e) = err (reword e)

same_advance :
    (now : ℕ) (next : Option ShipmentStatus) (s : Shipment)
    → advance now next s ≡ reworded (Shipment.advance now next s)
unfolding advance Shipment.advance
same_advance now none s = refl
same_advance now (some next) s = rw (same_table s.status) (
    ground (
      arith,
      Bool-cases (same_status next s.status),
      Bool-cases (includes (Shipment.allowed_transitions s.status) next),
    ))

shipment-order :
    (order : ℕ) (s : Shipment) (rows : List Shipment)
    → find (λ (x : Shipment). x.order_id == order) rows ≡ some s
    → s.order_id ≡ order
shipment-order order s [] h = absurd (ground arith)
shipment-order order s (x ∷ rows) h = ground (arith, shipment-order order s rows)

-- For an order whose shipment is the one that its identifier finds, moving the shipment by its order
-- does what moving it by its identifier does: the same shipment and tables, or the same error, but
-- that a move off the graph is refused with a text of its own and an empty update as not found.
pub update_order_shipment-update :
    (now order : ℕ) (dto : UpdateShipment) (s : Shipment) (db : Db)
    → find (λ (x : Shipment). x.order_id == order) db.shipments ≡ some s
    → find (λ (x : Shipment). x.id == s.id) db.shipments ≡ some s
    → update_order_shipment now order dto db ≡ reworded (update now s.id dto db)
unfolding update_order_shipment update
update_order_shipment-update now order dto s db by_order by_id =
    elim (Result-cases (Shipment.advance now (next_status dto) s)) [
      | inl (moved, e) ↦ ground (
        arith,
        Bool-cases (is_empty_update dto),
        same_advance now (next_status dto) s,
        shipment-order order s db.shipments,
      )
      | inr (x, e) ↦
          ground (arith, Bool-cases (is_empty_update dto), same_advance now (next_status dto) s)
    ]
