-- ===== src/AdminOrder/Preorders/Fifo.antt =====
-- An arrival serves the head of the queue, and as much of it as it can.
use lucky_draw.Common.{
  ℕ, ◌+◌, ◌-◌, ◌≤◌, ◌≡◌, ap, true, false, List, [], ◌∷◌, ◌++◌, leb, ◌==◌, arith, find,
  if◌then◌else◌, Option-cases, Bool-cases, inl, inr,
}
use mathlib.Core.List.{append-nil, append_assoc}
use lucky_draw.Model.{Db, Product, OrderItem, ok}
use lucky_draw.AdminOrder.Preorders.{
  Split, split_row, split_rows, nothing_split, Plan, plan_of, queue, build_plan,
}

abbrev pub total : List OrderItem → ℕ
total [] = 0
total (i ∷ items) = i.quantity + total items

-- The longest beginning of a queue that fits, by recursion on the queue.
abbrev pub prefix_of : ℕ → List OrderItem → List OrderItem
prefix_of room [] = []
prefix_of room (i ∷ items) =
    let rest = prefix_of (room - i.quantity) items in if leb i.quantity room then i ∷ rest else []

-- A loop that has stopped selecting.
stopped :
    (arrival q : ℕ) (chosen left rows : List OrderItem)
    → split_rows arrival
        (record { selected = chosen; waiting = left; quantity = q; selecting = false })
        rows
      ≡ record { selected = chosen; waiting = left ++ rows; quantity = q; selecting = false }
unfolding split_rows
stopped arrival q chosen left [] = ground (arith, append-nil left)
stopped arrival q chosen left (r ∷ rows) =
    ground (arith, append_assoc left (r ∷ []) rows, stopped arrival q chosen (left ++ r ∷ []) rows)

-- A loop that is still selecting.
abbrev Going : ℕ → ℕ → List OrderItem → List OrderItem → Split → Type 0
Going arrival q chosen rows s =
    (s.selected ≡ chosen ++ prefix_of (arrival - q) rows)
    × (s.quantity ≡ q + total (prefix_of (arrival - q) rows))
    × (s.selected ++ s.waiting ≡ chosen ++ rows)

split_fits :
    (arrival q : ℕ) (chosen : List OrderItem) (r : OrderItem)
    → leb (q + r.quantity) arrival ≡ true
    → split_row arrival
        (record { selected = chosen; waiting = []; quantity = q; selecting = true })
        r
      ≡ record {
        selected = chosen ++ r ∷ [];
        waiting = [];
        quantity = q + r.quantity;
        selecting = true;
      }
split_fits arrival q chosen r h = ground (arith, h)

split_full :
    (arrival q : ℕ) (chosen : List OrderItem) (r : OrderItem)
    → leb (q + r.quantity) arrival ≡ false
    → split_row arrival
        (record { selected = chosen; waiting = []; quantity = q; selecting = true })
        r
      ≡ record { selected = chosen; waiting = r ∷ []; quantity = q; selecting = false }
split_full arrival q chosen r h = ground (arith, h)

going :
    (arrival q : ℕ) (chosen rows : List OrderItem)
    → q ≤ arrival
    → Going arrival q chosen rows (
        split_rows arrival
          (record { selected = chosen; waiting = []; quantity = q; selecting = true })
          rows)
unfolding split_rows
going arrival q chosen [] h = (ground (arith, append-nil chosen), ground arith, ground arith)
going arrival q chosen (r ∷ rows) h = elim (Bool-cases (leb (q + r.quantity) arrival)) [
  | inl fits ↦
      let later = going arrival (q + r.quantity) (chosen ++ r ∷ []) rows (ground (arith, fits)) in
      let fits' : leb r.quantity (arrival - q) ≡ true = ground (arith, fits) in
      let room : arrival - q - r.quantity ≡ arrival - (q + r.quantity) = omega arith in
      let after = ap (λ s. split_rows arrival s rows) (split_fits arrival q chosen r fits) in
      (
        ground (
          arith,
          fits',
          room,
          after,
          later.0,
          append_assoc chosen (r ∷ []) (prefix_of (arrival - q - r.quantity) rows),
        ),
        ground (arith, fits', room, after, later.1),
        ground (arith, after, later.2, append_assoc chosen (r ∷ []) rows),
      )
  | inr full ↦
      let rest = stopped arrival q chosen (r ∷ []) rows in
      let full' : leb r.quantity (arrival - q) ≡ false = ground (arith, full) in
      let after = ap (λ s. split_rows arrival s rows) (split_full arrival q chosen r full) in
      (
        ground (arith, full', rest, after, append-nil chosen),
        ground (arith, full', rest, after),
        ground (arith, rest, after),
      )
]

prefix_of-le : (room : ℕ) (rows : List OrderItem) → total (prefix_of room rows) ≤ room
prefix_of-le room [] = omega arith
prefix_of-le room (r ∷ rows) = ground (arith, prefix_of-le (room - r.quantity) rows)

-- A plan selects the longest beginning of the queue whose pieces the arrival covers, leaves the rest
-- of the queue waiting in its order, counts the selected pieces, which are no more than have arrived,
-- and writes nothing.
pub build_plan-prefix :
    (product arrival : ℕ) (db : Db) {plan : Plan} {db' : Db}
    → build_plan product arrival db ≡ ok (plan, db')
    → (plan.selected ≡ prefix_of arrival (queue db product))
      × (plan.selected ++ plan.waiting ≡ queue db product)
      × (plan.selected_quantity ≡ total plan.selected)
      × (total plan.selected ≤ arrival)
      × (db' ≡ db)
unfolding build_plan
build_plan-prefix product arrival db {plan = plan} {db' = db'} h =
    elim (Option-cases (find (λ (p : Product). p.id == product) db.products)) [
      | inl e ↦ absurd (ground arith)
      | inr (p, e) ↦
          let rows = queue db product in
          let split = going arrival 0 [] rows (omega arith) in
          let found : (plan ≡ plan_of p (split_rows arrival nothing_split rows)) × (db' ≡ db) =
            ground (arith, e) in
          let chosen : plan.selected ≡ prefix_of arrival rows = ground (arith, found.0, split.0) in
          (
            chosen,
            ground (arith, found.0, split.2),
            ground (arith, found.0, split.1, chosen),
            ground (arith, chosen, prefix_of-le arrival rows),
            found.1,
          )
    ]
