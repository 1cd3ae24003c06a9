-- ===== src/AdminOrder/Preorders/Disjoint.antt =====
-- No preorder is selected twice.
use lucky_draw.Common.{
  ℕ, ◌≡◌, refl, true, false, Option, List, [], ◌∷◌, ◌++◌, map, arith, if◌then◌else◌, select,
  update_where, contains, All, Bool-cases, inl, inr,
}
use lucky_draw.Model.{Db, OrderItem, ok}
use lucky_draw.Tx.{pure, modify, ◌>>◌, >>=-eq-ok, Result-cases}
use lucky_draw.AdminOrder.Preorders.{
  Plan, is_queued, is_pending_item, goes_first, enqueue, in_order, queue, build_plan, parse_arrival,
  is_target, make_ready, item_id, mark, select_targets,
}
use lucky_draw.AdminOrder.Preorders.Fifo.{build_plan-prefix}

module _ (P : OrderItem → Type 0) where
  enqueue-All : (a : OrderItem) (xs : List OrderItem) → P a → All P xs → All P (enqueue a xs)
  enqueue-All a [] p h = (p, tt)
  enqueue-All a (x ∷ xs) p h = elim (Bool-cases (goes_first a x)) [
    | inl e ↦ rw e (p, h)
    | inr e ↦ rw e (h.0, enqueue-All a xs p h.1)
  ]

  in_order-All : (xs : List OrderItem) → All P xs → All P (in_order xs)
  unfolding in_order
  in_order-All [] h = tt
  in_order-All (x ∷ xs) h = enqueue-All x (in_order xs) h.0 (in_order-All xs h.1)

  first_part : (xs ys : List OrderItem) → All P (xs ++ ys) → All P xs
  first_part [] ys h = tt
  first_part (x ∷ xs) ys h = (h.0, first_part xs ys h.1)

abbrev IsFresh : List ℕ → OrderItem → Type 0
IsFresh ids i = contains ids i.id ≡ false

-- After the update, what still waits was not selected.
marked_row :
    (ids : List ℕ) (db : Db) (product : ℕ) (i : OrderItem)
    → is_queued db product (if is_target ids i then make_ready i else i) ≡ true
    → IsFresh ids (if is_target ids i then make_ready i else i)
marked_row ids db product i h =
    ground (arith, Bool-cases (contains ids i.id), Bool-cases (is_pending_item i.item_status))

marked-IsFresh :
    (ids : List ℕ) (db : Db) (product : ℕ) (items : List OrderItem)
    → All
        (IsFresh ids)
        (select (is_queued db product) (update_where (is_target ids) make_ready items))
marked-IsFresh ids db product [] = tt
marked-IsFresh ids db product (i ∷ items) =
    let row = if is_target ids i then make_ready i else i in
    let rest = marked-IsFresh ids db product items in
    elim (Bool-cases (is_queued db product row)) [
      | inl e ↦ rw e (marked_row ids db product i e, rest)
      | inr e ↦ rw e rest
    ]

marked_by :
    (product arrival : ℕ) (chosen : Plan) (db mid : Db) {plan : Plan} {db' : Db}
    → build_plan product arrival db ≡ ok (chosen, mid)
    → mid ≡ db
    → (modify (mark chosen.selected) >> pure chosen) mid ≡ ok (plan, db')
    → (build_plan product arrival db ≡ ok (plan, db)) × (db' ≡ mark plan.selected db)
marked_by product arrival chosen db mid {plan = plan} {db' = db'} first same rest =
    let planned : chosen ≡ plan = ground arith in
    let written : mark chosen.selected mid ≡ db' = ground arith in
    (cc (first, planned, same), cc (written, planned, same))

-- What a selection has planned and written.
pub selected-mark :
    (product : ℕ) (raw : Option ℕ) (db : Db) {plan : Plan} {db' : Db}
    → select_targets product raw db ≡ ok (plan, db')
    → (arrival : ℕ) × ((build_plan product arrival db ≡ ok (plan, db))
        × (db' ≡ mark plan.selected db))
unfolding select_targets
selected-mark product raw db {plan = plan} {db' = db'} h = elim (Result-cases (parse_arrival raw)) [
  | inr (x, e) ↦ absurd (ground arith)
  | inl (arrival, e) ↦
      let (chosen, mid, first, rest) =
        >>=-eq-ok (build_plan product arrival)
          (λ chosen. modify (mark chosen.selected) >> pure chosen) db (rw e at h) in
      let (_, _, _, _, same) = build_plan-prefix product arrival db first in
      (arrival, marked_by product arrival chosen db mid first same rest)
]

All-IsFresh : (xs : List OrderItem) → All (IsFresh []) xs
All-IsFresh [] = tt
All-IsFresh (x ∷ xs) = (refl, All-IsFresh xs)

later_rows :
    (product : ℕ) (chosen : List OrderItem) (db : Db)
    → All (IsFresh (map item_id chosen)) (queue (mark chosen db) product)
later_rows product [] db = All-IsFresh (queue db product)
later_rows product (i ∷ chosen) db =
    in_order-All (IsFresh (map item_id (i ∷ chosen)))
      (select (is_queued (mark (i ∷ chosen) db) product) (mark (i ∷ chosen) db).order_items)
      (marked-IsFresh (map item_id (i ∷ chosen)) (mark (i ∷ chosen) db) product db.order_items)

-- After a selection that succeeds, a later one of the product, for whatever arrival, selects none of
-- the items that the first has selected.
pub select_targets-select_targets :
    (product : ℕ) (raw raw' : Option ℕ) (db : Db) {plan plan' : Plan} {db' db'' : Db}
    → select_targets product raw db ≡ ok (plan, db')
    → select_targets product raw' db' ≡ ok (plan', db'')
    → All (λ (i : OrderItem). contains (map item_id plan.selected) i.id ≡ false) plan'.selected
select_targets-select_targets product raw raw' db {plan = plan} {plan' = plan'} {db' = db'} first
      second =
    let (arrival, (planned, written)) = selected-mark product raw db first in
    let (arrival', (planned', written')) = selected-mark product raw' db' second in
    let (_, parts, _, _, _) = build_plan-prefix product arrival' db' planned' in
    first_part (IsFresh (map item_id plan.selected)) plan'.selected plan'.waiting
      (rw (parts, written) (later_rows product plan.selected db))
