-- ===== src/SalesOrder/Cart/Merge.antt =====
-- Merging the items of a request by product.
use lucky_draw.Common.{
  ℕ, ◌+◌, ◌≡◌, refl, false, List, [], ◌∷◌, map, arith, ◌==◌, if◌then◌else◌, contains, sum_where,
  Distinct,
}
use lucky_draw.SalesOrder.Cart.{Item, product_id, add_item, merge_into, merge_items}

-- How many pieces of a product the items ask for.
abbrev pub quantity_of : ℕ → List Item → ℕ
quantity_of id items = sum_where (λ (i : Item). i.product_id == id) (λ (i : Item). i.quantity) items

quantity_of-add_item :
    (id : ℕ) (i : Item) (merged : List Item)
    → quantity_of id (add_item i merged)
      ≡ quantity_of id merged + (if i.product_id == id then i.quantity else 0)
unfolding add_item
quantity_of-add_item id i [] = ground arith
quantity_of-add_item id i (x ∷ xs) = ground (arith, quantity_of-add_item id i xs)

quantity_of-merge_into :
    (id : ℕ) (merged items : List Item)
    → quantity_of id (merge_into merged items) ≡ quantity_of id merged + quantity_of id items
unfolding merge_into
quantity_of-merge_into id merged [] = omega arith
quantity_of-merge_into id merged (i ∷ items) =
    ground
      (arith, quantity_of-add_item id i merged, quantity_of-merge_into id (add_item i merged) items)

contains-add_item :
    (k : ℕ) (i : Item) (merged : List Item)
    → contains (map product_id merged) k ≡ false
    → (i.product_id == k) ≡ false
    → contains (map product_id (add_item i merged)) k ≡ false
unfolding add_item
contains-add_item k i [] h other = ground arith
contains-add_item k i (x ∷ xs) h other = ground (arith, contains-add_item k i xs)

add_item-Distinct :
    (i : Item) (merged : List Item)
    → Distinct product_id merged
    → Distinct product_id (add_item i merged)
unfolding add_item
add_item-Distinct i [] h = (refl, tt)
add_item-Distinct i (x ∷ xs) h =
    ground (arith, add_item-Distinct i xs h.1, contains-add_item x.product_id i xs h.0)

merge_into-Distinct :
    (merged items : List Item)
    → Distinct product_id merged
    → Distinct product_id (merge_into merged items)
unfolding merge_into
merge_into-Distinct merged [] h = h
merge_into-Distinct merged (i ∷ items) h =
    merge_into-Distinct (add_item i merged) items (add_item-Distinct i merged h)

-- The merged items ask for every product at most once, and for as many pieces of each as the given
-- items do together.
pub merge_items_lem :
    (items : List Item)
    → Distinct product_id (merge_items items)
      × ((id : ℕ) → quantity_of id (merge_items items) ≡ quantity_of id items)
unfolding merge_items
merge_items_lem items =
    (merge_into-Distinct [] items tt, λ id. ground (arith, quantity_of-merge_into id [] items))
