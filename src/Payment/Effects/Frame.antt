-- ===== src/Payment/Effects/Frame.antt =====
-- What follows a payment touches the items, the shipments and the notifications alone.
use lucky_draw.Common.{◌≡◌, refl, ◌⊎◌, ℕ, arith, Option-cases, inl, inr}
use lucky_draw.Model.{Db, DeliveryMethod, ok}
use lucky_draw.Notification.{notify_user}
use lucky_draw.Payment.{order_with_id}
use lucky_draw.Payment.Effects.{prepare_shipments, announce_pickup, apply_paid_order_effects}

abbrev pub IsBookkeeping : Db → Db → Type 0
IsBookkeeping db db' =
    (db'.orders ≡ db.orders) × (db'.kuji_events ≡ db.kuji_events) × (db'.payments ≡ db.payments)

pub DeliveryMethod-cases :
    (d : DeliveryMethod) → (d ≡ DeliveryMethod.shipping) ⊎ (d ≡ DeliveryMethod.pickup)
DeliveryMethod-cases DeliveryMethod.shipping = inl refl
DeliveryMethod-cases DeliveryMethod.pickup = inr refl

pub apply_paid_order_effects-IsBookkeeping :
    (order : ℕ) (db db' : Db) {u : Unit {0}}
    → apply_paid_order_effects order db ≡ ok (u, db')
    → IsBookkeeping db db'
unfolding apply_paid_order_effects notify_user prepare_shipments announce_pickup
apply_paid_order_effects-IsBookkeeping order db db' {u = u} h =
    elim (Option-cases (order_with_id db order)) [
      | inl missing ↦ absurd (ground arith)
      | inr (o, known) ↦ ground (arith, DeliveryMethod-cases o.delivery_method)
    ]
