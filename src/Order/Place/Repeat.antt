-- ===== src/Order/Place/Repeat.antt =====
-- Asking again with the same key gives the same answer and changes nothing.
use lucky_draw.Common.{
  ℕ, ◌≡◌, refl, ap, true, false, Bool, Option, none, some, List, [], ◌∷◌, ◌++◌, arith, ◌==◌, find,
  count_where, Option-cases, Bool-cases, ==→eq, inl, inr, length,
}
use lucky_draw.Model.{Db, KujiEvent, Order, Error, Result, ok, err, unique_violation}
use lucky_draw.Cipher.{Cipher}
use lucky_draw.Stock
use lucky_draw.Stock.{Counters, GateResult}
use lucky_draw.Order.View.{OrderView, serialize_order}
use lucky_draw.Order.Shipping.{CreateOrder}
use lucky_draw.Order.Create.{Request, create_tx, create_with_tickets_tx, is_claimable, has_room}
use lucky_draw.Order.Create.Steps.{Placed, has_key, create_tx-Placed, create_with_tickets_tx-Placed}
use lucky_draw.Order.Place.{
  Response, Surroundings, World, create, finish, with_lock, take_lock, unless_cached, set_at,
  create_transactional, Outcome, order_with_key, respond, duplicate, on_error, settle,
  release_on_fail, written_out, settle_tickets, after_gate, counted, by_tickets, unless_known,
}

module _ (cipher : Cipher) (r : Request) (dto : CreateOrder) (s : Surroundings) where
  finish_remembers :
      (w : World) (out : Outcome) {response : Response} {w' : World}
      → finish cipher r dto s w out ≡ (ok response, w')
      → (w'.cache r.user r.key ≡ some response) × (w'.lock r.user r.key ≡ false)
  unfolding finish
  finish_remembers w (ok response, db, c) h = ground arith
  finish_remembers w (err e, db, c) h = ground arith

  locked_remembers :
      (w : World) (late : Option Response) {response : Response} {w' : World}
      → with_lock cipher r dto s w late ≡ (ok response, w')
      → (w'.cache r.user r.key ≡ some response) × (w'.lock r.user r.key ≡ false)
  unfolding with_lock
  locked_remembers w none h =
      finish_remembers w (create_transactional cipher r dto s w.db w.counters) h
  locked_remembers w (some response) h = ground arith

  remembers :
      (w : World) {response : Response} {w' : World}
      → w.lock r.user r.key ≡ false
      → create cipher r dto s w ≡ (ok response, w')
      → (w'.cache r.user r.key ≡ some response) × (w'.lock r.user r.key ≡ false)
  unfolding create
  remembers w free h = elim (Option-cases (w.cache r.user r.key)) [
    | inl e ↦
        locked_remembers (record w { lock = set_at w.lock r.user r.key true }) s.cached_late
          (rw (e, unless_cached, free, take_lock) at h)
    | inr (x, e) ↦ ground arith
  ]

-- If the key's lock was free and a request succeeded, then while the cache holds the response a
-- request with the same user and key gets it back whatever else it asks for, and changes nothing
-- at all; the key's lock is free again.
pub create-create :
    (cipher : Cipher) (r r' : Request) (dto dto' : CreateOrder) (s s' : Surroundings) (w : World)
    {response : Response} {w' : World}
    → r.user ≡ r'.user
    → r.key ≡ r'.key
    → w.lock r.user r.key ≡ false
    → create cipher r dto s w ≡ (ok response, w')
    → (create cipher r' dto' s' w' ≡ (ok response, w')) × (w'.lock r.user r.key ≡ false)
unfolding create
create-create cipher r r' dto dto' s s' w u k free h =
    let (kept, unlocked) = remembers cipher r dto s w free h in (ground arith, unlocked)

-- The answer that the database alone gives to a key.
abbrev Answered : Cipher → Request → Result Response × Db × Counters → Type 0
Answered cipher r (err e, db, c) = Unit
Answered cipher r (ok response, db, c) =
    (o : Order) × (order_with_key r.key db ≡ some o)
    × (o.user_id ≡ r.user)
    × (serialize_order cipher db o ≡ ok response.body)

find-append :
    (key : ℕ) (os : List Order) (o : Order)
    → count_where (has_key key) os ≡ 0
    → o.idempotency_key ≡ key
    → find (λ (x : Order). x.idempotency_key == key) (os ++ o ∷ []) ≡ some o
find-append key [] o h e = ground arith
find-append key (x ∷ os) o h e = ground (arith, find-append key os o)

module _ (cipher : Cipher) (r : Request) where
  answer_of :
      (status : ℕ) (db : Db) (c : Counters) (o : Order) (x : Result OrderView)
      → order_with_key r.key db ≡ some o
      → o.user_id ≡ r.user
      → serialize_order cipher db o ≡ x
      → Answered cipher r (respond status x, db, c)
  unfolding respond
  answer_of status db c o (ok view) e u h = (o, e, u, h)
  answer_of status db c o (err x) e u h = tt

  written_answer :
      (undo : Counters → Counters) (dto : CreateOrder) (db : Db) (c : Counters)
      (x : Result Response)
      → Answered cipher r (x, db, c)
      → Answered cipher r (written_out cipher r dto undo db c x)
  unfolding written_out
  written_answer undo dto db c (ok x) h = h
  written_answer undo dto db c (err x) h = tt

module _ (cipher : Cipher) (r : Request) (dto : CreateOrder) where
  duplicate_answer :
      (db : Db) (c : Counters) (found : Option Order)
      → order_with_key r.key db ≡ found
      → Answered cipher r (duplicate cipher r dto db found, db, c)
  unfolding duplicate
  duplicate_answer db c none e = tt
  duplicate_answer db c (some o) e = elim (Bool-cases (o.user_id == r.user)) [
    | inl own ↦ rw own (answer_of cipher r 200 db c o _ e (==→eq _ _ own) refl)
    | inr other ↦ rw other tt
  ]

  error_answer :
      (db : Db) (c : Counters) (e : Error) → Answered cipher r (on_error cipher r dto db e, db, c)
  unfolding on_error
  error_answer db c unique_violation = duplicate_answer db c (order_with_key r.key db) refl
  error_answer db c _ = tt

  -- A new order is found under its key, in the tables that the transaction leaves.
  Placed-answer :
      (status count : ℕ) (claim : KujiEvent → Bool) (before db : Db) (c : Counters) (o : Order)
      → Placed r dto count claim before.kuji_events before.orders db o
      → Answered cipher r (respond status (serialize_order cipher db o), db, c)
  Placed-answer status count claim before db c o p =
      answer_of cipher r status db c o _
        (rw p.added (
          find-append r.key before.orders o p.unused
            (ap (λ (x : Order). x.idempotency_key) p.priced)))
        (ap (λ (x : Order). x.user_id) p.priced) refl

  settle_answer :
      (undo : Counters → Counters) (count : ℕ) (before : Db) (c : Counters)
      (x : Result (Order × Db))
      → create_tx cipher r dto count before ≡ x
      → Answered cipher r (settle cipher r dto undo before c x)
  unfolding settle
  settle_answer undo count before c (ok (o, db)) e = written_answer cipher r undo dto db c _ (
      Placed-answer 201 count (is_claimable dto.kuji_event_id count r.now) before db c o
        (create_tx-Placed cipher r dto before count e).0)
  settle_answer undo count before c (err x) e = error_answer before (undo c) x

  settle_tickets_answer :
      (before : Db) (c : Counters) (x : Result (Order × Db))
      → create_with_tickets_tx cipher r dto before ≡ x
      → Answered cipher r (settle_tickets cipher r dto before c x)
  unfolding settle_tickets
  settle_tickets_answer before c (ok (o, db)) e =
      Placed-answer 201 (length dto.ticket_ids) (has_room dto.kuji_event_id (length dto.ticket_ids))
        before db c o (create_with_tickets_tx-Placed cipher r dto before e).0
  settle_tickets_answer before c (err x) e = error_answer before c x

  module _ (s : Surroundings) where
    gate_answer :
        (count : ℕ) (db : Db) (g : GateResult) (c : Counters)
        → Answered cipher r (after_gate cipher r dto s count db (g, c))
    unfolding after_gate
    gate_answer count db GateResult.out_of_stock c = tt
    gate_answer count db GateResult.not_found c = tt
    gate_answer count db GateResult.skipped c =
        settle_answer (release_on_fail cipher r dto s.release_answers GateResult.skipped count)
          count (s.others db) c _ refl
    gate_answer count db (GateResult.gated n) c =
        settle_answer (release_on_fail cipher r dto s.release_answers (GateResult.gated n) count)
          count (s.others db) c _ refl

    counted_answer :
        (count : Option ℕ) (db : Db) (c : Counters)
        → Answered cipher r (counted cipher r dto s count db c)
    unfolding counted
    counted_answer none db c = tt
    counted_answer (some count) db c =
        gate_answer count db (Stock.reserve db s.traffic dto.kuji_event_id count c).0
          (Stock.reserve db s.traffic dto.kuji_event_id count c).1

    tickets_answer :
        (ids : List ℕ) (db : Db) (c : Counters)
        → Answered cipher r (by_tickets cipher r dto s ids db c)
    unfolding by_tickets
    tickets_answer [] db c = counted_answer dto.ticket_count db c
    tickets_answer (i ∷ ids) db c = settle_tickets_answer (s.others db) c _ refl

    known_answer :
        (found : Option Order) (db : Db) (c : Counters)
        → order_with_key r.key db ≡ found
        → Answered cipher r (unless_known cipher r dto s found db c)
    unfolding unless_known
    known_answer none db c e = tickets_answer dto.ticket_ids db c
    known_answer (some o) db c e = elim (Bool-cases (o.user_id == r.user)) [
      | inl own ↦ rw own (answer_of cipher r 200 db c o _ e (==→eq _ _ own) refl)
      | inr other ↦ rw other tt
    ]

same_again :
    (cipher : Cipher) (r : Request) (dto : CreateOrder) (s : Surroundings) (db : Db)
    (c c' : Counters) (response : Response)
    → Answered cipher r (ok response, db, c')
    → create_transactional cipher r dto s db c ≡ (ok (record response { status = 200 }), db, c)
unfolding create_transactional unless_known respond
same_again cipher r dto s db c c' response (o, e, u, h) = ground arith

-- An order that the database has answered is answered again in the same way by the database alone,
-- with the status 200, whatever the second request asks for; nothing is written, and no ticket is
-- taken.
pub create_transactional-create_transactional :
    (cipher : Cipher) (r r' : Request) (dto dto' : CreateOrder) (s s' : Surroundings) (db : Db)
    (c c'' : Counters) {response : Response} {db' : Db} {c' : Counters}
    → r.user ≡ r'.user
    → r.key ≡ r'.key
    → create_transactional cipher r dto s db c ≡ (ok response, db', c')
    → create_transactional cipher r' dto' s' db' c''
      ≡ (ok (record response { status = 200 }), db', c'')
unfolding create_transactional
create_transactional-create_transactional cipher r r' dto dto' s s' db c c'' {response} {db'} {c'} u
      k h =
    let answer : Answered cipher r (ok response, db', c') =
      rw h at (known_answer cipher r dto s (order_with_key r.key db) db c refl) in
    same_again cipher r' dto' s' db' c'' c' response
      (answer.0, rw (← k) answer.1, rw (← u) answer.2, answer.3)
