-- ===== src/Payment/Effects/Numbered.antt =====
-- The payment of an order keeps the queue numbers of every product apart.
use lucky_draw.Common.{
  ℕ, ◌≡◌, refl, ◌∙◌, Bool, Bool-cases, inl, inr, false, not, ◌&&◌, All, All-map, Distinct,
  Distinct-updated, contains, map, select, Option-cases, is_none, some, List, [], ◌∷◌, arith, ◌==◌,
  ◌=?◌, count_where, max_where,
}
use lucky_draw.Model.{Db, OrderItem, ok}
use lucky_draw.Payment.Effects.{
  apply_paid_order_effects, prepare_shipments, announce_pickup, is_preorder_item, number_items,
  next_sequence, give_sequence, is_rival, paid_sequence,
}
use lucky_draw.Notification.{notify_user}
use lucky_draw.Payment.{order_with_id}
use lucky_draw.Payment.Effects.Frame.{DeliveryMethod-cases}
use lucky_draw.Payment.Effects.Queue.{
  is_from, by_id, has_id, IsNumbered, IsKnown, none_from, beyond, give_sequence-IsNumbered,
  known_after,
}

-- The queues, and the items that are still to be numbered.
record Ready (todo items : List OrderItem) : Type 0 where
  unique : Distinct by_id items
  known : All (IsKnown items) todo
  numbered : IsNumbered items

next_fresh :
    (product id : ℕ) (items : List OrderItem)
    → count_where
        (λ i. is_rival product id i && is_from (next_sequence items product id) i.paid_sequence)
        items
      ≡ 0
next_fresh product id items =
    none_from (next_sequence items product id) (is_rival product id) items
      (beyond (max_where (is_rival product id) paid_sequence items))

given-Ready :
    (item : OrderItem) (rest items : List OrderItem) (product : ℕ)
    → item.product_id ≡ some product
    → Ready (item ∷ rest) items
    → Ready rest (give_sequence item.id (next_sequence items product item.id) items)
given-Ready item rest items product of_product ready =
    let n = next_sequence items product item.id in
    record {
      unique =
          Distinct-updated by_id (has_id item.id) (λ i. record i { paid_sequence = some n })
            (λ i. refl) items ready.unique;
      known =
          All-map (IsKnown items) (IsKnown (give_sequence item.id n items)) rest
            (λ i k p e. known_after item.id product n i.id p items ∙ k p e) ready.known.1;
      numbered =
          give_sequence-IsNumbered item.id product n items ready.unique
            (ready.known.0 product of_product) (next_fresh product item.id items) ready.numbered;
    }

skipped-Ready :
    (item : OrderItem) (rest items : List OrderItem) → Ready (item ∷ rest) items → Ready rest items
skipped-Ready item rest items ready = record {
  unique = ready.unique;
  known = ready.known.1;
  numbered = ready.numbered;
}

loop-IsNumbered :
    (todo items : List OrderItem) → Ready todo items → IsNumbered (number_items todo items)
unfolding number_items
loop-IsNumbered [] items ready = ready.numbered
loop-IsNumbered (item ∷ rest) items ready = elim (Option-cases item.product_id) [
  | inl e ↦ rw e (loop-IsNumbered rest items (skipped-Ready item rest items ready))
  | inr (product, e) ↦ elim (Bool-cases (is_none item.paid_sequence)) [
    | inr paid ↦ rw (e, paid) (loop-IsNumbered rest items (skipped-Ready item rest items ready))
    | inl unpaid ↦
        rw (e, unpaid)
          (loop-IsNumbered rest (give_sequence item.id (next_sequence items product item.id) items)
            (given-Ready item rest items product e ready))
  ]
]

-- Rows with different identifiers know their products.
absent_known :
    (item : OrderItem) (product : ℕ) (items : List OrderItem)
    → contains (map by_id items) item.id ≡ false
    → count_where (λ i. has_id item.id i && not (i.product_id =? product)) items ≡ 0
absent_known item product [] h = refl
absent_known item product (i ∷ items) h = ground (arith, absent_known item product items)

apart :
    (p : OrderItem → Bool) (id : ℕ) (items : List OrderItem)
    → contains (map by_id items) id ≡ false
    → All (λ (i : OrderItem). (id == i.id) ≡ false) (select p items)
apart p id [] h = tt
apart p id (i ∷ items) h = ground (arith, Bool-cases (p i), apart p id items)

grown :
    (x : OrderItem) (items todo : List OrderItem)
    → All (λ (i : OrderItem). (x.id == i.id) ≡ false) todo
    → All (IsKnown items) todo
    → All (IsKnown (x ∷ items)) todo
grown x items [] h k = tt
grown x items (i ∷ todo) h k =
    (λ product e. ground (arith, h.0, k.0 product e), grown x items todo h.1 k.1)

select-IsKnown :
    (p : OrderItem → Bool) (items : List OrderItem)
    → Distinct by_id items
    → All (IsKnown items) (select p items)
select-IsKnown p [] unique = tt
select-IsKnown p (x ∷ items) unique =
    let rest =
      grown x items (select p items) (apart p x.id items unique.0)
        (select-IsKnown p items unique.1) in
    elim (Bool-cases (p x)) [
      | inl e ↦
          rw e (λ product of_product. ground (arith, absent_known x product items unique.0), rest)
      | inr e ↦ rw e rest
    ]

-- If items have different identifiers and no two items of a product have the same number, this stays
-- so when an order is paid and its preordered items are numbered, for any number of items and
-- products, if no other payment takes effect at the same time.
pub apply_paid_order_effects-IsNumbered :
    (order : ℕ) (db db' : Db) {u : Unit {0}}
    → apply_paid_order_effects order db ≡ ok (u, db')
    → Distinct by_id db.order_items
    → IsNumbered db.order_items
    → IsNumbered db'.order_items
unfolding apply_paid_order_effects prepare_shipments announce_pickup notify_user
apply_paid_order_effects-IsNumbered order db db' {u} h unique before =
    let todo = select (is_preorder_item db order) db.order_items in
    let ready : Ready todo db.order_items = record {
      unique = unique;
      known = select-IsKnown (is_preorder_item db order) db.order_items unique;
      numbered = before;
    } in
    elim (Option-cases (order_with_id db order)) [
      | inl missing ↦ absurd (ground arith)
      | inr (o, known) ↦
          let written : db'.order_items ≡ number_items todo db.order_items =
            ground (arith, DeliveryMethod-cases o.delivery_method) in
          rw written (loop-IsNumbered todo db.order_items ready)
    ]
