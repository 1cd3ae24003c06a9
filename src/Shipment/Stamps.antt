-- ===== src/Shipment/Stamps.antt =====
-- The dates of a shipment.
use lucky_draw.Common.{
  ℕ, ◌≡◌, ◌⊎◌, refl, true, Bool, Option, none, some, arith, not, is_none, Bool-cases, inl, inr,
}
use lucky_draw.Model.{Shipment, ShipmentStatus, ok}
use lucky_draw.Shipment.{advance, stamp, or_now, includes, same_status, allowed_transitions}

-- A shipment in a status that has a date has the date.
abbrev pub is_stamped : ShipmentStatus → Shipment → Bool
is_stamped ShipmentStatus.invoice_registered s = not (is_none s.invoice_registered_at)
is_stamped ShipmentStatus.shipped s = not (is_none s.shipped_at)
is_stamped ShipmentStatus.delivered s = not (is_none s.delivered_at)
is_stamped _ s = true

abbrev pub IsStamped : Shipment → Type 0
IsStamped s = is_stamped s.status s ≡ true

-- What is recorded stays.
abbrev pub Keeps : Shipment → Shipment → Type 0
Keeps s t =
    ((s.invoice_registered_at ≡ none) ⊎ (t.invoice_registered_at ≡ s.invoice_registered_at))
    × ((s.shipped_at ≡ none) ⊎ (t.shipped_at ≡ s.shipped_at))
    × ((s.delivered_at ≡ none) ⊎ (t.delivered_at ≡ s.delivered_at))

stamp-IsStamped : (now : ℕ) (next : ShipmentStatus) (s : Shipment) → IsStamped (stamp now next s)
stamp-IsStamped now ShipmentStatus.invoice_registered s = ground arith
stamp-IsStamped now ShipmentStatus.shipped s = ground arith
stamp-IsStamped now ShipmentStatus.delivered s = ground arith
stamp-IsStamped now ShipmentStatus.pending s = refl
stamp-IsStamped now _ s = refl

kept_or_new : (o : Option ℕ) (now : ℕ) → (o ≡ none) ⊎ (or_now o now ≡ o)
kept_or_new none now = inl refl
kept_or_new (some t) now = inr refl

stamp-Keeps : (now : ℕ) (next : ShipmentStatus) (s : Shipment) → Keeps s (stamp now next s)
stamp-Keeps now ShipmentStatus.invoice_registered s =
    (kept_or_new s.invoice_registered_at now, inr refl, inr refl)
stamp-Keeps now ShipmentStatus.shipped s = (inr refl, kept_or_new s.shipped_at now, inr refl)
stamp-Keeps now ShipmentStatus.delivered s = (inr refl, inr refl, kept_or_new s.delivered_at now)
stamp-Keeps now ShipmentStatus.pending s = (inr refl, inr refl, inr refl)
stamp-Keeps now _ s = (inr refl, inr refl, inr refl)

same-Keeps : (s t : Shipment) → s ≡ t → Keeps s t
same-Keeps s t e = rw e (inr refl, inr refl, inr refl)

-- Every move keeps the dates: a status with a date has it, and no recorded date is overwritten.
pub advance-IsStamped :
    (now : ℕ) (next : Option ShipmentStatus) (s : Shipment) {t : Shipment}
    → IsStamped s
    → advance now next s ≡ ok t
    → IsStamped t × Keeps s t
unfolding advance
advance-IsStamped now none s {t} v h =
    let same : s ≡ t = ground arith in (rw same at v, same-Keeps s t same)
advance-IsStamped now (some next) s {t} v h = elim (Bool-cases (same_status next s.status)) [
  | inl stays ↦ let same : s ≡ t = ground arith in (rw same at v, same-Keeps s t same)
  | inr new ↦ elim (Bool-cases (includes (allowed_transitions s.status) next)) [
    | inr off ↦ absurd (ground arith)
    | inl edge ↦
        let same : stamp now next s ≡ t = ground arith in
        (rw same at (stamp-IsStamped now next s), rw same at (stamp-Keeps now next s))
  ]
]
