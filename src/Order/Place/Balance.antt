-- ===== src/Order/Place/Balance.antt =====
-- A failed order leaves no trace in the counters.
use lucky_draw.Common.{
  ℕ, ◌≡◌, ap, true, Option, none, some, List, [], ◌∷◌, arith, Option-cases, inl, inr,
}
use lucky_draw.Model.{Db, Order, Error, Result, ok, err}
use lucky_draw.Cipher.{Cipher}
use lucky_draw.Stock
use lucky_draw.Stock.{Counters, GateResult, Traffic, put}
use lucky_draw.Order.Shipping.{CreateOrder}
use lucky_draw.Order.Create.{Request, create_tx, create_with_tickets_tx}
use lucky_draw.Order.Place.{
  Surroundings, order_with_key, release_on_fail, settle, settle_tickets, after_gate, counted,
  by_tickets, unless_known, create_transactional,
}

module _ (cipher : Cipher) (r : Request) (dto : CreateOrder) where
  abbrev undone : ℕ → GateResult × Counters → Counters
  undone count (gate, c) = release_on_fail cipher r dto true gate count c

  -- Taking from a counter that is there, and giving back.
  reserve-undone :
      (db : Db) (traffic : Traffic) (count n k : ℕ) (c : Counters)
      → c dto.kuji_event_id ≡ some n
      → undone count (Stock.reserve db traffic dto.kuji_event_id count c) k ≡ c k
  unfolding Stock.reserve Stock.release release_on_fail
  reserve-undone db traffic count n k c e = ground arith

  settle_error :
      (undo : Counters → Counters) (before : Db) (c : Counters) (x : Result (Order × Db))
      {e : Error} {db' : Db} {c' : Counters}
      → settle cipher r dto undo before c x ≡ (err e, db', c')
      → c' ≡ undo c
  unfolding settle
  settle_error undo before c (ok (o, db)) h = ground arith
  settle_error undo before c (err x) h = ground arith

  after_gate_error :
      (s : Surroundings) (count : ℕ) (db : Db) (g : GateResult) (c : Counters) (k : ℕ)
      (old : Option ℕ) {e : Error} {db' : Db} {c' : Counters}
      → s.release_answers ≡ true
      → undone count (g, c) k ≡ old
      → after_gate cipher r dto s count db (g, c) ≡ (err e, db', c')
      → c' k ≡ old
  unfolding after_gate release_on_fail
  after_gate_error s count db GateResult.out_of_stock c k old a u h = ground arith
  after_gate_error s count db GateResult.not_found c k old a u h = ground arith
  after_gate_error s count db GateResult.skipped c k old a u h =
      let same =
        settle_error (λ c. c) (s.others db) c (create_tx cipher r dto count (s.others db)) h in
      rw same u
  after_gate_error s count db (GateResult.gated n) c k old a u h =
      let same =
        settle_error (Stock.release s.release_answers dto.kuji_event_id count) (s.others db) c
          (create_tx cipher r dto count (s.others db)) h in
      rw (same, a) u

  settle_tickets_error :
      (before : Db) (c : Counters) (x : Result (Order × Db)) {e : Error} {db' : Db} {c' : Counters}
      → settle_tickets cipher r dto before c x ≡ (err e, db', c')
      → c' ≡ c
  unfolding settle_tickets
  settle_tickets_error before c (ok (o, db)) h = ground arith
  settle_tickets_error before c (err x) h = ground arith

  counted_error :
      (s : Surroundings) (count : Option ℕ) (db : Db) (c : Counters) (n k : ℕ) {e : Error}
      {db' : Db} {c' : Counters}
      → s.release_answers ≡ true
      → c dto.kuji_event_id ≡ some n
      → counted cipher r dto s count db c ≡ (err e, db', c')
      → c' k ≡ c k
  unfolding counted
  counted_error s none db c n k a e h = ground arith
  counted_error s (some count) db c n k a e h =
      after_gate_error s count db (Stock.reserve db s.traffic dto.kuji_event_id count c).0
        (Stock.reserve db s.traffic dto.kuji_event_id count c).1 k (c k) a
        (reserve-undone db s.traffic count n k c e) h

  by_tickets_error :
      (s : Surroundings) (ids : List ℕ) (db : Db) (c : Counters) (n k : ℕ) {e : Error} {db' : Db}
      {c' : Counters}
      → s.release_answers ≡ true
      → c dto.kuji_event_id ≡ some n
      → by_tickets cipher r dto s ids db c ≡ (err e, db', c')
      → c' k ≡ c k
  unfolding by_tickets
  by_tickets_error s [] db c n k a e h = counted_error s dto.ticket_count db c n k a e h
  by_tickets_error s (i ∷ ids) db c n k a e h =
      ap (λ (f : Counters). f k)
        (settle_tickets_error (s.others db) c (create_with_tickets_tx cipher r dto (s.others db)) h)

  -- An order that fails, wherever it fails and whatever other requests do to the database, leaves
  -- every counter in Redis as it was, if the event had its counter and Redis answers the release.
  pub create_transactional-error :
      (s : Surroundings) (db : Db) (c : Counters) (n k : ℕ) {e : Error} {db' : Db} {c' : Counters}
      → s.release_answers ≡ true
      → c dto.kuji_event_id ≡ some n
      → create_transactional cipher r dto s db c ≡ (err e, db', c')
      → c' k ≡ c k
  unfolding create_transactional
  create_transactional-error s db c n k a e h = elim (Option-cases (order_with_key r.key db)) [
    | inr (o, x) ↦ ground arith
    | inl x ↦ by_tickets_error s dto.ticket_ids db c n k a e (rw (x, unless_known) at h)
  ]
