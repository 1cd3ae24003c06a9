-- ===== src/AdminOrder/Pickups/Repeated.antt =====
-- A pickup is completed once.
use lucky_draw.Common.{
  ℕ, ◌≡◌, ◌⊎◌, refl, String, Option, some, List, [], ◌∷◌, arith, ◌==◌, find, update_where,
  Option-cases, inl, inr,
}
use lucky_draw.Model.{Db, Pickup, PickupStatus, ok}
use lucky_draw.Notification.{notify_user}
use lucky_draw.Payment.{order_with_id}
use lucky_draw.Payment.Deposit.Once.{find_updated}
use lucky_draw.AdminOrder.Pickups.{
  pickup_of, picked_up, completed_order, set_completed, complete_if_waiting, complete_pickup,
}

find-picked_up :
    (order : ℕ) (p next : Pickup) (ps : List Pickup)
    → next.order_id ≡ order
    → find (λ (x : Pickup). x.order_id == order) ps ≡ some p
    → find
        (λ (x : Pickup). x.order_id == order)
        (update_where (λ (x : Pickup). x.id == p.id) (λ _. next) ps)
      ≡ some next
find-picked_up order p next [] same h = absurd (ground arith)
find-picked_up order p next (x ∷ ps) same h = ground (arith, find-picked_up order p next ps)

pickup-order :
    (order : ℕ) (p : Pickup) (ps : List Pickup)
    → find (λ (x : Pickup). x.order_id == order) ps ≡ some p
    → p.order_id ≡ order
pickup-order order p [] h = absurd (ground arith)
pickup-order order p (x ∷ ps) h = ground (arith, pickup-order order p ps)

pub PickupStatus-cases :
    (s : PickupStatus)
    → (s ≡ PickupStatus.waiting) ⊎ (s ≡ PickupStatus.completed) ⊎ (s ≡ PickupStatus.cancelled)
PickupStatus-cases PickupStatus.waiting = inl refl
PickupStatus-cases PickupStatus.completed = inr (inl refl)
PickupStatus-cases PickupStatus.cancelled = inr (inr refl)

-- After a pickup that was completed, completing it again, by whichever operator, at whatever time
-- and place, gives the same pickup and changes nothing.
pub complete_pickup-complete_pickup :
    (now later admin admin' : ℕ) (location location' : Option String) (order : ℕ) (db : Db)
    {p : Pickup} {db' : Db}
    → complete_pickup now admin location order db ≡ ok (p, db')
    → complete_pickup later admin' location' order db' ≡ ok (p, db')
unfolding complete_pickup complete_if_waiting set_completed notify_user
complete_pickup-complete_pickup now later admin admin' location location' order db {p = p}
      {db' = db'} h =
    elim (Option-cases (order_with_id db order)) [
      | inl e ↦ absurd (ground arith)
      | inr (o, known) ↦ elim (Option-cases (pickup_of db order)) [
        | inl e ↦ absurd (ground arith)
        | inr (was, found) ↦
            let again = find_updated order (completed_order now) o db.orders (λ x. refl) known in
            let taken =
              find-picked_up order was (picked_up now admin location was) db.pickups
                (pickup-order order was db.pickups found) found in
            elim (PickupStatus-cases was.status) [
              | inl e ↦ ground (arith, again, taken)
              | inr (inl e) ↦ ground arith
              | inr (inr e) ↦ absurd (ground arith)
            ]
      ]
    ]
