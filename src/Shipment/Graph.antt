-- ===== src/Shipment/Graph.antt =====
-- The graph of a shipment's statuses.
use lucky_draw.Common.{
  ℕ, ◌≡◌, ◌⊎◌, inl, inr, refl, true, false, Bool, Option, none, some, arith, Bool-cases, find, ◌==◌,
}
use lucky_draw.Model.{Db, Shipment, ShipmentStatus, ok}
use lucky_draw.Tx.{Result-cases}
use lucky_draw.Shipment.{
  UpdateShipment, allowed_transitions, advance, includes, same_status, stamp, fill_in, next_status,
  is_empty_update, update,
}

abbrev pub IsAllowed : ShipmentStatus → ShipmentStatus → Type 0
IsAllowed s t = includes (allowed_transitions s) t ≡ true

pub data Route : ShipmentStatus → ShipmentStatus → Type 0 where
  stay : {s : ShipmentStatus} → Route s s
  go : {s t u : ShipmentStatus} → IsAllowed s t → Route t u → Route s u

abbrev pub is_final : ShipmentStatus → Bool
is_final ShipmentStatus.delivered = true
is_final ShipmentStatus.cancelled = true
is_final ShipmentStatus.returned = true
is_final ShipmentStatus.failed = true
is_final _ = false

abbrev pub is_travelling : ShipmentStatus → Bool
is_travelling ShipmentStatus.shipped = true
is_travelling ShipmentStatus.in_transit = true
is_travelling _ = false

-- What an operator may do with a parcel.
pub data Move : ShipmentStatus → ShipmentStatus → Type 0 where
  -- at any time before the end
  fail : {s : ShipmentStatus} → is_final s ≡ false → Move s ShipmentStatus.failed
  hold : {s : ShipmentStatus} → is_final s ≡ false → Move s ShipmentStatus.on_hold
  -- before it has left, or after
  cancel :
      {s : ShipmentStatus}
      → is_final s ≡ false
      → is_travelling s ≡ false
      → Move s ShipmentStatus.cancelled
  send_back : {s : ShipmentStatus} → is_travelling s ≡ true → Move s ShipmentStatus.returned
  deliver : {s : ShipmentStatus} → is_travelling s ≡ true → Move s ShipmentStatus.delivered
  depart : Move ShipmentStatus.shipped ShipmentStatus.in_transit
  prepare : Move ShipmentStatus.pending ShipmentStatus.preparing
  register : Move ShipmentStatus.preparing ShipmentStatus.invoice_registered
  ship : Move ShipmentStatus.preparing ShipmentStatus.shipped
  ship_registered : Move ShipmentStatus.invoice_registered ShipmentStatus.shipped
  -- from where it was held
  prepare_again : Move ShipmentStatus.on_hold ShipmentStatus.preparing
  register_again : Move ShipmentStatus.on_hold ShipmentStatus.invoice_registered
  ship_again : Move ShipmentStatus.on_hold ShipmentStatus.shipped

status-stamp : (now : ℕ) (next : ShipmentStatus) (s : Shipment) → (stamp now next s).status ≡ next
status-stamp now ShipmentStatus.pending s = refl
status-stamp now ShipmentStatus.invoice_registered s = refl
status-stamp now ShipmentStatus.shipped s = refl
status-stamp now ShipmentStatus.delivered s = refl
status-stamp now _ s = refl

IsAllowed-Move : (s t : ShipmentStatus) → IsAllowed s t → Move s t
unfolding allowed_transitions
IsAllowed-Move ShipmentStatus.pending ShipmentStatus.preparing h = Move.prepare
IsAllowed-Move ShipmentStatus.pending ShipmentStatus.on_hold h = Move.hold refl
IsAllowed-Move ShipmentStatus.pending ShipmentStatus.cancelled h = Move.cancel refl refl
IsAllowed-Move ShipmentStatus.pending ShipmentStatus.failed h = Move.fail refl
IsAllowed-Move ShipmentStatus.pending _ h = ground arith
IsAllowed-Move ShipmentStatus.preparing ShipmentStatus.invoice_registered h = Move.register
IsAllowed-Move ShipmentStatus.preparing ShipmentStatus.shipped h = Move.ship
IsAllowed-Move ShipmentStatus.preparing ShipmentStatus.on_hold h = Move.hold refl
IsAllowed-Move ShipmentStatus.preparing ShipmentStatus.cancelled h = Move.cancel refl refl
IsAllowed-Move ShipmentStatus.preparing ShipmentStatus.failed h = Move.fail refl
IsAllowed-Move ShipmentStatus.preparing _ h = ground arith
IsAllowed-Move ShipmentStatus.invoice_registered ShipmentStatus.shipped h = Move.ship_registered
IsAllowed-Move ShipmentStatus.invoice_registered ShipmentStatus.on_hold h = Move.hold refl
IsAllowed-Move ShipmentStatus.invoice_registered ShipmentStatus.cancelled h = Move.cancel refl refl
IsAllowed-Move ShipmentStatus.invoice_registered ShipmentStatus.failed h = Move.fail refl
IsAllowed-Move ShipmentStatus.invoice_registered _ h = ground arith
IsAllowed-Move ShipmentStatus.shipped ShipmentStatus.in_transit h = Move.depart
IsAllowed-Move ShipmentStatus.shipped ShipmentStatus.delivered h = Move.deliver refl
IsAllowed-Move ShipmentStatus.shipped ShipmentStatus.on_hold h = Move.hold refl
IsAllowed-Move ShipmentStatus.shipped ShipmentStatus.returned h = Move.send_back refl
IsAllowed-Move ShipmentStatus.shipped ShipmentStatus.failed h = Move.fail refl
IsAllowed-Move ShipmentStatus.shipped _ h = ground arith
IsAllowed-Move ShipmentStatus.in_transit ShipmentStatus.delivered h = Move.deliver refl
IsAllowed-Move ShipmentStatus.in_transit ShipmentStatus.on_hold h = Move.hold refl
IsAllowed-Move ShipmentStatus.in_transit ShipmentStatus.returned h = Move.send_back refl
IsAllowed-Move ShipmentStatus.in_transit ShipmentStatus.failed h = Move.fail refl
IsAllowed-Move ShipmentStatus.in_transit _ h = ground arith
IsAllowed-Move ShipmentStatus.on_hold ShipmentStatus.preparing h = Move.prepare_again
IsAllowed-Move ShipmentStatus.on_hold ShipmentStatus.invoice_registered h = Move.register_again
IsAllowed-Move ShipmentStatus.on_hold ShipmentStatus.shipped h = Move.ship_again
IsAllowed-Move ShipmentStatus.on_hold ShipmentStatus.cancelled h = Move.cancel refl refl
IsAllowed-Move ShipmentStatus.on_hold ShipmentStatus.failed h = Move.fail refl
IsAllowed-Move ShipmentStatus.on_hold _ h = ground arith
IsAllowed-Move _ t h = ground arith

final_frozen :
    (s t : ShipmentStatus) → is_final s ≡ true → includes (allowed_transitions s) t ≡ false
unfolding allowed_transitions
final_frozen ShipmentStatus.delivered t h = refl
final_frozen ShipmentStatus.cancelled t h = refl
final_frozen ShipmentStatus.returned t h = refl
final_frozen ShipmentStatus.failed t h = refl
final_frozen _ t h = ground arith

-- A move that is not refused keeps the status or is one of the moves, and changes nothing of a
-- shipment at its end.
advance-Move :
    (now : ℕ) (next : Option ShipmentStatus) (s : Shipment) {t : Shipment}
    → advance now next s ≡ ok t
    → ((t.status ≡ s.status) ⊎ Move s.status t.status) × ((is_final s.status ≡ false) ⊎ (t ≡ s))
unfolding advance
advance-Move now none s {t} h = (inl (ground arith), inr (ground arith))
advance-Move now (some next) s {t} h = (moved, frozen)
  where
    moved : (t.status ≡ s.status) ⊎ Move s.status t.status
    moved = elim (Bool-cases (same_status next s.status)) [
      | inl same ↦ inl (ground arith)
      | inr new ↦ elim (Bool-cases (includes (allowed_transitions s.status) next)) [
        | inl edge ↦
            let reached : t.status ≡ next = ground (arith, status-stamp now next s) in
            inr (rw reached (IsAllowed-Move s.status next edge))
        | inr off ↦ absurd (ground arith)
      ]
    ]

    frozen : (is_final s.status ≡ false) ⊎ (t ≡ s)
    frozen = elim (Bool-cases (is_final s.status)) [
      | inr open_ ↦ inl open_
      | inl final ↦ inr (ground (arith, final_frozen s.status next final))
    ]

-- The status and the times of a shipment that is at its end.
abbrev pub IsFrozen : Shipment → Shipment → Type 0
IsFrozen s t =
    (t.status ≡ s.status)
    × (t.invoice_registered_at ≡ s.invoice_registered_at)
    × (t.shipped_at ≡ s.shipped_at)
    × (t.delivered_at ≡ s.delivered_at)

-- An update of an existing shipment that succeeds keeps its status or makes one of the moves; the
-- status and the times of a shipment that is delivered, cancelled, returned or failed stay as they
-- are, while its carrier, tracking number and hold reason may change.
pub update-Move :
    (now id : ℕ) (dto : UpdateShipment) (db : Db) {s t : Shipment} {db' : Db}
    → find (λ (x : Shipment). x.id == id) db.shipments ≡ some s
    → update now id dto db ≡ ok (t, db')
    → ((t.status ≡ s.status) ⊎ Move s.status t.status)
      × ((is_final s.status ≡ false) ⊎ IsFrozen s t)
unfolding update
update-Move now id dto db {s} {t} {db'} known h =
    elim (Result-cases (advance now (next_status dto) s)) [
      | inr (e, refused) ↦ absurd (ground (arith, Bool-cases (is_empty_update dto)))
      | inl (m, done) ↦
          let filled : t ≡ fill_in dto m = ground (arith, Bool-cases (is_empty_update dto)) in
          let move = advance-Move now (next_status dto) s done in
          rw filled (
            move.0,
            elim move.1 [
              | inl open_ ↦ inl open_
              | inr same ↦ inr (rw same (refl, refl, refl, refl))
            ],
          )
    ]

-- From every status that is not final a shipment can be moved to PREPARING, from SHIPPED too: by way
-- of ON_HOLD.
pub back_to_preparing : (s : ShipmentStatus) → is_final s ≡ false → Route s ShipmentStatus.preparing
unfolding allowed_transitions
back_to_preparing ShipmentStatus.pending h = go refl stay
back_to_preparing ShipmentStatus.preparing h = stay
back_to_preparing ShipmentStatus.invoice_registered h =
    go {t = ShipmentStatus.on_hold} refl (go refl stay)
back_to_preparing ShipmentStatus.shipped h = go {t = ShipmentStatus.on_hold} refl (go refl stay)
back_to_preparing ShipmentStatus.in_transit h = go {t = ShipmentStatus.on_hold} refl (go refl stay)
back_to_preparing ShipmentStatus.on_hold h = go refl stay
back_to_preparing ShipmentStatus.delivered h = ground arith
back_to_preparing ShipmentStatus.returned h = ground arith
back_to_preparing ShipmentStatus.cancelled h = ground arith
back_to_preparing ShipmentStatus.failed h = ground arith
