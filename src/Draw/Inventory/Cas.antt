-- ===== src/Draw/Inventory/Cas.antt =====
-- The update under a version: what a draw takes from the inventories, and of which tier.
use lucky_draw.Common.{
  ℕ, zero, suc, ◌+◌, ◌-◌, ◌≡◌, ◌≢◌, refl, sym, Bool, true, Option, none, some, List, [], ◌∷◌, ◌++◌,
  ltb, arith, count_where, update_where, sum_where, All, Bool-cases, inl, inr,
}
use lucky_draw.Model.{Db, PrizeTier, Inventory, ok}
use lucky_draw.Tx.{Tx}
use lucky_draw.Draw.Pick.{TierRow, total_weight, pick_tier, or_last, choose_tier}
use lucky_draw.Draw.Result.{Drawn, insert_result}
use lucky_draw.Draw.Inventory.{
  Draw, is_candidate, rows_of_tier, tier_rows, is_unchanged, take_one, compare_and_take, award_tier,
  attempts, draw_one, take_or_retry, attempt_with,
}

abbrev pub anything : Inventory → Bool
anything i = true

abbrev pub remaining : Inventory → ℕ
remaining i = i.remaining_quantity

-- What is left in all inventories together.
abbrev pub stock_left : Db → ℕ
stock_left db = sum_where anything remaining db.inventories

pub taken_total :
    (t : TierRow) (is : List Inventory)
    → sum_where anything remaining (update_where (is_unchanged t) take_one is)
        + count_where (is_unchanged t) is
      ≡ sum_where anything remaining is
taken_total t [] = refl
taken_total t (i ∷ is) = ground (arith, taken_total t is)

-- A row of the query: its tier is a candidate, and its inventory still is in the table.
abbrev pub IsRow : ℕ → Bool → List Inventory → TierRow → Type 0
IsRow kuji award invs t =
    (is_candidate kuji award t.tier ≡ true) × (count_where (is_unchanged t) invs ≢ 0)

more_rows :
    (kuji : ℕ) (award : Bool) (i : Inventory) (invs : List Inventory) (rows : List TierRow)
    → All (IsRow kuji award invs) rows
    → All (IsRow kuji award (i ∷ invs)) rows
more_rows kuji award i invs [] h = tt
more_rows kuji award i invs (t ∷ rows) h = ground (arith, more_rows kuji award i invs rows)

rows_of_tier-IsRow :
    (kuji : ℕ) (award : Bool) (pt : PrizeTier) (invs : List Inventory)
    → is_candidate kuji award pt ≡ true
    → All (IsRow kuji award invs) (rows_of_tier pt invs)
unfolding rows_of_tier
rows_of_tier-IsRow kuji award pt [] h = tt
rows_of_tier-IsRow kuji award pt (i ∷ invs) h = ground (
  arith,
  rows_of_tier-IsRow kuji award pt invs h,
  more_rows kuji award i invs (rows_of_tier pt invs),
)

both_rows :
    (kuji : ℕ) (award : Bool) (invs : List Inventory) (rows more : List TierRow)
    → All (IsRow kuji award invs) rows
    → All (IsRow kuji award invs) more
    → All (IsRow kuji award invs) (rows ++ more)
both_rows kuji award invs [] more h k = k
both_rows kuji award invs (t ∷ rows) more h k = (h.0, both_rows kuji award invs rows more h.1 k)

pub tier_rows-IsRow :
    (kuji : ℕ) (award : Bool) (tiers : List PrizeTier) (invs : List Inventory)
    → All (IsRow kuji award invs) (tier_rows kuji award tiers invs)
unfolding tier_rows
tier_rows-IsRow kuji award [] invs = tt
tier_rows-IsRow kuji award (pt ∷ tiers) invs = elim (Bool-cases (is_candidate kuji award pt)) [
  | inl yes_it_is ↦ rw yes_it_is (
      both_rows kuji award invs (rows_of_tier pt invs) (tier_rows kuji award tiers invs)
        (rows_of_tier-IsRow kuji award pt invs yes_it_is) (tier_rows-IsRow kuji award tiers invs))
  | inr no_it_is_not ↦ rw no_it_is_not (tier_rows-IsRow kuji award tiers invs)
]

-- The choice is one of the rows.
module _ (P : TierRow → Type 0) where
  or_last-All :
      (o : Option TierRow) (t : TierRow) (ts : List TierRow)
      → ((u : TierRow) → o ≡ some u → P u)
      → All P (t ∷ ts)
      → P (or_last o t ts)
  unfolding or_last
  or_last-All (some u) t ts f h = f u refl
  or_last-All none t [] f h = h.0
  or_last-All none t (u ∷ us) f h = or_last-All none u us (λ v e. absurd (ground arith)) h.1

  same_holds : (t u : TierRow) → t ≡ u → P t → P u
  same_holds t u e h = rw (sym e) h

  pick_tier-All :
      (ts : List TierRow) (pick : ℕ) (u : TierRow) → All P ts → pick_tier pick ts ≡ some u → P u
  unfolding pick_tier
  pick_tier-All [] pick u h e = absurd (ground arith)
  pick_tier-All (t ∷ ts) pick u h e = elim (Bool-cases (ltb pick t.remaining)) [
    | inl here ↦ same_holds t u (ground arith) h.0
    | inr later ↦ pick_tier-All ts (pick - t.remaining) u h.1 (ground arith)
  ]

  pub choose_tier-All :
      (pick : ℕ) (t : TierRow) (ts : List TierRow) → All P (t ∷ ts) → P (choose_tier pick t ts)
  unfolding choose_tier
  choose_tier-All pick t ts h =
      or_last-All (pick_tier pick (t ∷ ts)) t ts (λ u e. pick_tier-All (t ∷ ts) pick u h e) h

-- Whatever other transactions do in between: the tier that a ticket gets belongs to the event, and
-- it is the last prize exactly if the last prize was to be given.
module _ (d : Draw) (index : ℕ) (award : Bool) where
  abbrev pub IsAward : Drawn → Type 0
  IsAward r =
      (pt : PrizeTier) × (r.tier ≡ some pt)
      × (r.tier_id ≡ pt.id)
      × (is_candidate d.kuji award pt ≡ true)

  award_tier-row :
      (t : TierRow) (db db' : Db) (r : Drawn)
      → award_tier d index award t db ≡ ok (r, db')
      → (r.tier ≡ some t.tier) × (r.tier_id ≡ t.tier.id)
  unfolding award_tier insert_result
  award_tier-row t db db' r h = ground arith

  take_or_retry-IsAward :
      (t : TierRow) (retry : Tx Drawn) (n : ℕ) (db db' : Db) (r : Drawn)
      → is_candidate d.kuji award t.tier ≡ true
      → ((db1 : Db) → retry db1 ≡ ok (r, db') → IsAward r)
      → take_or_retry d index award t retry n db ≡ ok (r, db')
      → IsAward r
  take_or_retry-IsAward t retry zero db db' r c later h = later db h
  take_or_retry-IsAward t retry (suc n) db db' r c later h =
      (t.tier, (award_tier-row t db db' r h).0, (award_tier-row t db db' r h).1, c)

  attempt_with-IsAward :
      (attempt : ℕ) (retry : Tx Drawn) (rows : List TierRow) (db db' : Db) (r : Drawn)
      → All (λ t. is_candidate d.kuji award t.tier ≡ true) rows
      → ((db1 : Db) → retry db1 ≡ ok (r, db') → IsAward r)
      → attempt_with d index award attempt retry rows db ≡ ok (r, db')
      → IsAward r
  unfolding compare_and_take
  attempt_with-IsAward attempt retry [] db db' r c later h = absurd (ground arith)
  attempt_with-IsAward attempt retry (t ∷ ts) db db' r c later h =
      let chosen = choose_tier (d.draw_random (total_weight (t ∷ ts)) attempt) t ts in
      take_or_retry-IsAward chosen retry
        (count_where (is_unchanged chosen) (d.others attempt db).inventories)
        (record (d.others attempt db) {
          inventories =
              update_where (is_unchanged chosen) take_one (d.others attempt db).inventories;
        })
        db' r
        (choose_tier-All (λ u. is_candidate d.kuji award u.tier ≡ true)
          (d.draw_random (total_weight (t ∷ ts)) attempt) t ts c)
        later h

  candidates :
      (invs : List Inventory) (rows : List TierRow)
      → All (IsRow d.kuji award invs) rows
      → All (λ t. is_candidate d.kuji award t.tier ≡ true) rows
  candidates invs [] h = tt
  candidates invs (t ∷ rows) h = (h.0.0, candidates invs rows h.1)

  attempts-IsAward :
      (left attempt : ℕ) (db db' : Db) (r : Drawn)
      → attempts d index award left attempt db ≡ ok (r, db')
      → IsAward r
  unfolding attempts
  attempts-IsAward zero attempt db db' r h = absurd (ground arith)
  attempts-IsAward (suc left) attempt db db' r h =
      attempt_with-IsAward attempt (attempts d index award left (attempt + 1))
        (tier_rows d.kuji award db.prize_tiers db.inventories) db db' r
        (candidates db.inventories (tier_rows d.kuji award db.prize_tiers db.inventories)
          (tier_rows-IsRow d.kuji award db.prize_tiers db.inventories))
        (λ db1 e. attempts-IsAward left (attempt + 1) db1 db' r e) h

  -- A ticket that is drawn against the inventories gets a tier of its event, whatever other
  -- transactions do between the attempts; and that tier is a last prize exactly if the last prize
  -- was to be given.
  pub draw_one-IsAward :
      (db db' : Db) (r : Drawn) → draw_one d index award db ≡ ok (r, db') → IsAward r
  unfolding draw_one
  draw_one-IsAward db db' r h = attempts-IsAward 5 0 db db' r h
