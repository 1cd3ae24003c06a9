-- ===== src/Ticket/Seed/Deal.antt =====
-- What a deal of seats gives: every seat once, and every tier its share.
use lucky_draw.Common.{
  ℕ, zero, suc, ◌+◌, ◌≡◌, ap, refl, ◌∙◌, none, Bool, not, ◌&&◌, ◌||◌, some, List, [], ◌∷◌, ◌++◌,
  map, arith, length, ◌==◌, find, select, count_where, All, Option,
}
use mathlib.Core.List.{append-nil}
use lucky_draw.Model.{Db, KujiEvent, Ticket, TicketStatus, ok, is_reserved, is_sold}
use lucky_draw.Ticket.Slots.{EventSlots, Slot, validate_for_slots, build_slots}
use lucky_draw.Ticket.Slots.Shares.{
  tier_share, has_tier, count_where-build_slots, length-build_slots,
}
use lucky_draw.Ticket.Seed.{event_slots, is_of_kuji, rows_from, seed_for_kuji, reshuffle_for_kuji}

-- `first, first + 1, …`
abbrev pub count_up : ℕ → ℕ → List ℕ
count_up first zero = []
count_up first (suc n) = first ∷ count_up (first + 1) n

abbrev pub IsFreeSeat : Ticket → Type 0
IsFreeSeat t = (t.status ≡ TicketStatus.available) × (t.order_id ≡ none)

-- The seats of an event, freshly dealt: their positions run from 1 to the number of tickets, each
-- tier has its share, and all of them are free.
pub record Dealt (kuji tier : ℕ) (event : EventSlots) (tickets : List Ticket) : Type 0 where
  pub seats : length (select (is_of_kuji kuji) tickets) ≡ event.total_tickets
  pub positions :
      map (λ (t : Ticket). t.position) (select (is_of_kuji kuji) tickets)
      ≡ count_up 1 event.total_tickets
  pub shares :
      count_where (λ (t : Ticket). t.prize_tier_id == tier) (select (is_of_kuji kuji) tickets)
      ≡ tier_share tier event.prize_tiers
  pub free : All IsFreeSeat (select (is_of_kuji kuji) tickets)

module _ (fresh : ℕ → ℕ) (kuji : ℕ) where
  length-rows_from :
      (idx : ℕ) (slots : List Slot) → length (rows_from fresh kuji idx slots) ≡ length slots
  unfolding rows_from
  length-rows_from idx [] = refl
  length-rows_from idx (s ∷ slots) = ap suc (length-rows_from (idx + 1) slots)

  positions-rows_from :
      (idx : ℕ) (slots : List Slot)
      → map (λ (t : Ticket). t.position) (rows_from fresh kuji idx slots)
        ≡ count_up (idx + 1) (length slots)
  unfolding rows_from
  positions-rows_from idx [] = refl
  positions-rows_from idx (s ∷ slots) =
      ap (λ (ps : List ℕ). (idx + 1) ∷ ps) (positions-rows_from (idx + 1) slots)

  shares-rows_from :
      (tier idx : ℕ) (slots : List Slot)
      → count_where (λ (t : Ticket). t.prize_tier_id == tier) (rows_from fresh kuji idx slots)
        ≡ count_where (has_tier tier) slots
  unfolding rows_from
  shares-rows_from tier idx [] = refl
  shares-rows_from tier idx (s ∷ slots) = ground (arith, shares-rows_from tier (idx + 1) slots)

  free-rows_from : (idx : ℕ) (slots : List Slot) → All IsFreeSeat (rows_from fresh kuji idx slots)
  unfolding rows_from
  free-rows_from idx [] = tt
  free-rows_from idx (s ∷ slots) = ((refl, refl), free-rows_from (idx + 1) slots)

module _ (p : Ticket → Bool) where
  select-append : (xs ys : List Ticket) → select p (xs ++ ys) ≡ select p xs ++ select p ys
  select-append [] ys = refl
  select-append (x ∷ xs) ys = ground (arith, select-append xs ys)

  select-none : (xs : List Ticket) → count_where p xs ≡ 0 → select p xs ≡ []
  select-none [] h = refl
  select-none (x ∷ xs) h = ground (arith, select-none xs)

  select-reject : (xs : List Ticket) → select p (select (λ t. not (p t)) xs) ≡ []
  select-reject [] = refl
  select-reject (x ∷ xs) = ground (arith, select-reject xs)

  reject-reject :
      (xs : List Ticket)
      → select (λ t. not (p t)) (select (λ t. not (p t)) xs) ≡ select (λ t. not (p t)) xs
  reject-reject [] = refl
  reject-reject (x ∷ xs) = ground (arith, reject-reject xs)

module _ (fresh : ℕ → ℕ) (kuji : ℕ) where
  select-rows_from :
      (idx : ℕ) (slots : List Slot)
      → select (is_of_kuji kuji) (rows_from fresh kuji idx slots) ≡ rows_from fresh kuji idx slots
  unfolding rows_from
  select-rows_from idx [] = refl
  select-rows_from idx (s ∷ slots) = ground (arith, select-rows_from (idx + 1) slots)

  reject-rows_from :
      (idx : ℕ) (slots : List Slot)
      → select (λ t. not (is_of_kuji kuji t)) (rows_from fresh kuji idx slots) ≡ []
  unfolding rows_from
  reject-rows_from idx [] = refl
  reject-rows_from idx (s ∷ slots) = ground (arith, reject-rows_from (idx + 1) slots)

  -- The rows of a checked event, behind a table that has no seat of it.
  Dealt-of_rows :
      (random : ℕ → ℕ) (tier : ℕ) (event : EventSlots) (old : List Ticket)
      → select (is_of_kuji kuji) old ≡ []
      → validate_for_slots event ≡ ok tt
      → Dealt kuji tier event (old ++ rows_from fresh kuji 0 (build_slots random event))
  Dealt-of_rows random tier event old none_of checked =
      let slots = build_slots random event in
      let rows = rows_from fresh kuji 0 slots in
      let only : select (is_of_kuji kuji) (old ++ rows) ≡ rows =
        select-append (is_of_kuji kuji) old rows ∙ rw (none_of, select-rows_from 0 slots) in
      let total : length slots ≡ event.total_tickets = length-build_slots random event checked in
      record {
        seats = rw (only, length-rows_from fresh kuji 0 slots) total;
        positions = rw (only, positions-rows_from fresh kuji 0 slots, total) refl;
        shares =
            rw (only, shares-rows_from fresh kuji tier 0 slots)
              (count_where-build_slots tier random event);
        free = rw only (free-rows_from fresh kuji 0 slots);
      }

  -- What both deals come to.
  deal :
      (random : ℕ → ℕ) (tier : ℕ) (event : EventSlots) (old tickets : List Ticket) (n : ℕ)
      → select (is_of_kuji kuji) old ≡ []
      → validate_for_slots event ≡ ok tt
      → n ≡ length (rows_from fresh kuji 0 (build_slots random event))
      → tickets ≡ old ++ rows_from fresh kuji 0 (build_slots random event)
      → (n ≡ event.total_tickets)
        × Dealt kuji tier event tickets
        × (select (λ t. not (is_of_kuji kuji t)) tickets
            ≡ select (λ t. not (is_of_kuji kuji t)) old)
  deal random tier event old tickets n none_of checked counted written =
      let slots = build_slots random event in
      (
        counted ∙ length-rows_from fresh kuji 0 slots ∙ length-build_slots random event checked,
        rw written (Dealt-of_rows random tier event old none_of checked),
        rw
            (
              written,
              select-append (λ t. not (is_of_kuji kuji t)) old (rows_from fresh kuji 0 slots),
              reject-rows_from 0 slots,
            )
            (append-nil _),
      )

abbrev pub event_of : Db → ℕ → Option KujiEvent
event_of db kuji = find (λ (e : KujiEvent). e.id == kuji) db.kuji_events

module _ (fresh random : ℕ → ℕ) (kuji : ℕ) (db : Db) {ev : KujiEvent} {n : ℕ} {db' : Db}
    (known : event_of db kuji ≡ some ev) where
  seed-steps :
      seed_for_kuji fresh random kuji db ≡ ok (n, db')
      → (count_where (is_of_kuji kuji) db.tickets ≡ 0)
        × (validate_for_slots (event_slots db ev) ≡ ok tt)
        × (n ≡ length (rows_from fresh kuji 0 (build_slots random (event_slots db ev))))
        × (db' ≡ record db {
          tickets = db.tickets ++ rows_from fresh kuji 0 (build_slots random (event_slots db ev));
        })
  unfolding seed_for_kuji
  seed-steps h = ground arith

  reshuffle-steps :
      reshuffle_for_kuji fresh random kuji db ≡ ok (n, db')
      → (count_where
            (λ t. is_of_kuji kuji t && (is_sold t.status || is_reserved t.status))
            db.tickets
          ≡ 0)
        × (validate_for_slots (event_slots db ev) ≡ ok tt)
        × (n ≡ length (rows_from fresh kuji 0 (build_slots random (event_slots db ev))))
        × (db' ≡ record db {
          tickets =
              select (λ t. not (is_of_kuji kuji t)) db.tickets
              ++ rows_from fresh kuji 0 (build_slots random (event_slots db ev));
        })
  unfolding reshuffle_for_kuji
  reshuffle-steps h = ground arith

  -- A deal that succeeds deals every seat of the event once, gives every prize tier its quantity of
  -- seats (the last prize none), and leaves the seats of other events alone.
  pub seed_for_kuji-Dealt :
      (tier : ℕ)
      → seed_for_kuji fresh random kuji db ≡ ok (n, db')
      → (n ≡ ev.total_tickets)
        × Dealt kuji tier (event_slots db ev) db'.tickets
        × (select (λ t. not (is_of_kuji kuji t)) db'.tickets
            ≡ select (λ t. not (is_of_kuji kuji t)) db.tickets)
  seed_for_kuji-Dealt tier h =
      let (unseeded, checked, counted, written) = seed-steps h in
      deal fresh kuji random tier (event_slots db ev) db.tickets db'.tickets n
        (select-none (is_of_kuji kuji) db.tickets unseeded) checked counted
        (ap (λ (d : Db). d.tickets) written)

  -- A second deal needs that no seat of the event is held or sold; then it deals them all anew, as
  -- the first deal does.
  pub reshuffle_for_kuji-Dealt :
      (tier : ℕ)
      → reshuffle_for_kuji fresh random kuji db ≡ ok (n, db')
      → (count_where
            (λ t. is_of_kuji kuji t && (is_sold t.status || is_reserved t.status))
            db.tickets
          ≡ 0)
        × (n ≡ ev.total_tickets)
        × Dealt kuji tier (event_slots db ev) db'.tickets
        × (select (λ t. not (is_of_kuji kuji t)) db'.tickets
            ≡ select (λ t. not (is_of_kuji kuji t)) db.tickets)
  reshuffle_for_kuji-Dealt tier h =
      let (idle, checked, counted, written) = reshuffle-steps h in
      let (seats, dealt, others) =
        deal fresh kuji random tier (event_slots db ev)
          (select (λ t. not (is_of_kuji kuji t)) db.tickets) db'.tickets n
          (select-reject (is_of_kuji kuji) db.tickets) checked counted
          (ap (λ (d : Db). d.tickets) written) in
      (idle, seats, dealt, others ∙ reject-reject (is_of_kuji kuji) db.tickets)
