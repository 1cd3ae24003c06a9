-- ===== src/Order/Place.antt =====
-- Placing an order: the idempotency key, the gate in Redis, the transaction and what is undone when
-- it throws (apps/backend/src/order/order.service.ts: create, createTransactional,
-- createWithTicketsTransactional).
pub mod Balance
pub mod Repeat
use lucky_draw.Common.{
  ℕ, Bool, true, false, not, ◌&&◌, Option, none, some, List, [], ◌∷◌, ◌==◌, find, if◌then◌else◌,
}
use lucky_draw.Model.{
  Db, Order, Error, Result, ok, err, bad_request, conflict, not_found, unique_violation,
  idempotency_key_conflict, ticket_count_required, out_of_stock, kuji_not_found,
  duplicate_in_flight,
}
use lucky_draw.Cipher.{Cipher}
use lucky_draw.Stock
use lucky_draw.Stock.{Counters, GateResult, Traffic}
use lucky_draw.Order.View.{OrderView, serialize_order}
use lucky_draw.Order.Shipping.{CreateOrder}
use lucky_draw.Order.Create.{Request, create_tx, create_with_tickets_tx}

-- `CachedIdempotentResponse`
pub record Response : Type 0 where
  pub status : ℕ
  pub body : OrderView

-- What goes on beside the request: the calls to Redis that answer, and what other requests commit
-- between the look-up of the key and the transaction; and what another request with the key has put
-- into the cache between the two look-ups there.
pub record Surroundings : Type 0 where
  pub traffic : Traffic
  pub release_answers : Bool
  pub others : Db → Db
  pub cached_late : Option Response

abbrev pub Outcome : Type 0
Outcome = Result Response × Db × Counters

abbrev pub order_with_key : ℕ → Db → Option Order
order_with_key key db = find (λ (o : Order). o.idempotency_key == key) db.orders

respond : ℕ → Result OrderView → Result Response
respond status (ok view) = ok (record { status = status; body = view })
respond status (err e) = err e

module _ (cipher : Cipher) (r : Request) (dto : CreateOrder) where
  -- The `catch` on P2002: an order with this key that belongs to the user is the answer.
  duplicate : Db → Option Order → Result Response
  unfolding respond
  duplicate db none = err unique_violation
  duplicate db (some dup) =
      if dup.user_id == r.user
      then respond 200 (serialize_order cipher db dup)
      else err unique_violation

  on_error : Db → Error → Result Response
  unfolding duplicate
  on_error db unique_violation = duplicate db (order_with_key r.key db)
  on_error db e = err e

  -- The flow with tickets does not pass the gate.
  settle_tickets : Db → Counters → Result (Order × Db) → Outcome
  unfolding respond on_error
  settle_tickets before c (ok (order, db)) = (respond 201 (serialize_order cipher db order), db, c)
  settle_tickets before c (err e) = (on_error before e, before, c)

  -- `releaseOnFail`
  release_on_fail : Bool → GateResult → ℕ → Counters → Counters
  release_on_fail answers (GateResult.gated _) count c =
      Stock.release answers dto.kuji_event_id count c
  release_on_fail answers _ count c = c

  -- An error while the committed order is written out is caught as well.
  written_out : (Counters → Counters) → Db → Counters → Result Response → Outcome
  written_out undo db c (ok response) = (ok response, db, c)
  written_out undo db c (err e) = (err e, db, undo c)

  settle : (Counters → Counters) → Db → Counters → Result (Order × Db) → Outcome
  unfolding respond on_error written_out
  settle undo before c (ok (order, db)) =
      written_out undo db c (respond 201 (serialize_order cipher db order))
  settle undo before c (err e) = (on_error before e, before, undo c)

  module _ (s : Surroundings) where
    after_gate : ℕ → Db → GateResult × Counters → Outcome
    unfolding settle release_on_fail
    after_gate count db (GateResult.out_of_stock, c) = (err (conflict out_of_stock), db, c)
    after_gate count db (GateResult.not_found, c) = (err (not_found kuji_not_found), db, c)
    after_gate count db (gate, c) =
        settle (release_on_fail s.release_answers gate count) (s.others db) c
          (create_tx cipher r dto count (s.others db))

    counted : Option ℕ → Db → Counters → Outcome
    unfolding after_gate
    counted none db c = (err (bad_request ticket_count_required), db, c)
    counted (some count) db c =
        after_gate count db (Stock.reserve db s.traffic dto.kuji_event_id count c)

    by_tickets : List ℕ → Db → Counters → Outcome
    unfolding counted settle_tickets
    by_tickets [] db c = counted dto.ticket_count db c
    by_tickets (_ ∷ _) db c =
        settle_tickets (s.others db) c (create_with_tickets_tx cipher r dto (s.others db))

    unless_known : Option Order → Db → Counters → Outcome
    unfolding by_tickets respond
    unless_known none db c = by_tickets dto.ticket_ids db c
    unless_known (some o) db c =
        if not (o.user_id == r.user)
        then (err (conflict idempotency_key_conflict), db, c)
        else (respond 200 (serialize_order cipher db o), db, c)

    unfoldable pub create_transactional : Db → Counters → Outcome
    unfolding unless_known
    create_transactional db c = unless_known (order_with_key r.key db) db c

-- The database and Redis: the counters, the cached responses and the locks, the last two by the user
-- and the key. The lock is taken to outlive the request (30 s), and the responses are kept (24 h).
pub record World : Type 0 where
  pub db : Db
  pub counters : Counters
  pub cache : ℕ → ℕ → Option Response
  pub lock : ℕ → ℕ → Bool

abbrev pub set_at {ℓ} : {A : Type ℓ} → (ℕ → ℕ → A) → ℕ → ℕ → A → ℕ → ℕ → A
set_at f user key a u k = if (u == user) && (k == key) then a else f u k

module _ (cipher : Cipher) (r : Request) (dto : CreateOrder) (s : Surroundings) where
  -- The response is put into the cache; `finally` takes the lock off.
  finish : World → Outcome → Result Response × World
  finish w (ok response, db, c) = (
    ok response,
    record w {
      db = db;
      counters = c;
      cache = set_at w.cache r.user r.key (some response);
      lock = set_at w.lock r.user r.key false;
    },
  )
  finish w (err e, db, c) =
      (err e, record w { db = db; counters = c; lock = set_at w.lock r.user r.key false })

  with_lock : World → Option Response → Result Response × World
  unfolding finish
  with_lock w (some response) = (
    ok response,
    record w {
      cache = set_at w.cache r.user r.key (some response);
      lock = set_at w.lock r.user r.key false;
    },
  )
  with_lock w none = finish w (create_transactional cipher r dto s w.db w.counters)

  take_lock : World → Bool → Result Response × World
  unfolding with_lock
  take_lock w true = (err (conflict duplicate_in_flight), w)
  take_lock w false = with_lock (record w { lock = set_at w.lock r.user r.key true }) s.cached_late

  unless_cached : World → Option Response → Result Response × World
  unfolding take_lock
  unless_cached w (some response) = (ok response, w)
  unless_cached w none = take_lock w (w.lock r.user r.key)

  unfoldable pub create : World → Result Response × World
  unfolding unless_cached
  create w = unless_cached w (w.cache r.user r.key)
