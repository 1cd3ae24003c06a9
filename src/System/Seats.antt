-- ===== src/System/Seats.antt =====
-- What happens to seats and shipments touches no order and no event.
use lucky_draw.Common.{
  ℕ, ◌≡◌, refl, List, Option, none, some, arith, find, ◌==◌, Option-cases, inl, inr,
}
use lucky_draw.Model.{Db, KujiEvent, Shipment, ShipmentStatus, ok}
use lucky_draw.Tx.{Result-cases}
use lucky_draw.Notification.{notify_user, notify_admin}
use lucky_draw.Ticket.Reserve.{Reservation, reserve, release_mine, release_expired}
use lucky_draw.Ticket.Reserve.Hold.{reserve-Held}
use lucky_draw.Ticket.Seed.{seed_for_kuji, reshuffle_for_kuji, load_event, event_slots}
use lucky_draw.Ticket.Slots.{validate_for_slots}
use lucky_draw.Shipment.{UpdateShipment, update, announce, advance, next_status}
use lucky_draw.System.Booked.{IsUntouched}

pub reserve-IsUntouched :
    (kuji : ℕ) (positions : List ℕ) (user now : ℕ) (db : Db) {r : Reservation} {db' : Db}
    → reserve kuji positions user now db ≡ ok (r, db')
    → IsUntouched db db'
reserve-IsUntouched kuji positions user now db h =
    let held = reserve-Held kuji positions user now db h in ground (arith, held.written)

pub release_mine-IsUntouched :
    (kuji user : ℕ) (db : Db) {n : ℕ} {db' : Db}
    → release_mine kuji user db ≡ ok (n, db')
    → IsUntouched db db'
unfolding release_mine
release_mine-IsUntouched kuji user db h = ground arith

pub release_expired-IsUntouched :
    (now : ℕ) (db : Db) {n : ℕ} {db' : Db}
    → release_expired now db ≡ ok (n, db')
    → IsUntouched db db'
unfolding release_expired
release_expired-IsUntouched now db h = ground arith

module _ (fresh random : ℕ → ℕ) (kuji : ℕ) (db : Db) {n : ℕ} {db' : Db} where
  pub seed_for_kuji-IsUntouched :
      seed_for_kuji fresh random kuji db ≡ ok (n, db') → IsUntouched db db'
  unfolding seed_for_kuji load_event
  seed_for_kuji-IsUntouched h =
      elim (Option-cases (find (λ (e : KujiEvent). e.id == kuji) db.kuji_events)) [
        | inl e ↦ absurd (ground arith)
        | inr (ev, e) ↦ ground (arith, Result-cases (validate_for_slots (event_slots db ev)))
      ]

  pub reshuffle_for_kuji-IsUntouched :
      reshuffle_for_kuji fresh random kuji db ≡ ok (n, db') → IsUntouched db db'
  unfolding reshuffle_for_kuji load_event
  reshuffle_for_kuji-IsUntouched h =
      elim (Option-cases (find (λ (e : KujiEvent). e.id == kuji) db.kuji_events)) [
        | inl e ↦ absurd (ground arith)
        | inr (ev, e) ↦ ground (arith, Result-cases (validate_for_slots (event_slots db ev)))
      ]

pub announce-IsUntouched :
    (order : ℕ) (next : Option ShipmentStatus) (db : Db) → IsUntouched db (announce order next db)
unfolding announce notify_user notify_admin
announce-IsUntouched order none db = (refl, refl)
announce-IsUntouched order (some ShipmentStatus.pending) db = (refl, refl)
announce-IsUntouched order (some ShipmentStatus.preparing) db = (refl, refl)
announce-IsUntouched order (some ShipmentStatus.invoice_registered) db = (refl, refl)
announce-IsUntouched order (some ShipmentStatus.shipped) db = (refl, refl)
announce-IsUntouched order (some ShipmentStatus.in_transit) db = (refl, refl)
announce-IsUntouched order (some ShipmentStatus.delivered) db = (refl, refl)
announce-IsUntouched order (some ShipmentStatus.on_hold) db = (refl, refl)
announce-IsUntouched order (some ShipmentStatus.returned) db = (refl, refl)
announce-IsUntouched order (some ShipmentStatus.cancelled) db = (refl, refl)
announce-IsUntouched order (some ShipmentStatus.failed) db = (refl, refl)

pub update-IsUntouched :
    (now id : ℕ) (dto : UpdateShipment) (db : Db) {s : Shipment} {db' : Db}
    → update now id dto db ≡ ok (s, db')
    → IsUntouched db db'
unfolding update
update-IsUntouched now id dto db h =
    elim (Option-cases (find (λ (s : Shipment). s.id == id) db.shipments)) [
      | inl e ↦ absurd (ground arith)
      | inr (s, e) ↦ elim (Result-cases (advance now (next_status dto) s)) [
        | inl (moved, m) ↦ ground (arith, announce-IsUntouched s.order_id (next_status dto))
        | inr (x, m) ↦ absurd (ground arith)
      ]
    ]
