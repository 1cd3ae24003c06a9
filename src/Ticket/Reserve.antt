-- ===== src/Ticket/Reserve.antt =====
-- Holding seats for a while, and giving them back (apps/backend/src/ticket/ticket.service.ts:
-- reserve, releaseMine, releaseExpired).
pub mod Hold
pub mod Exclusion
pub mod Release
use lucky_draw.Common.{
  ℕ, ◌+◌, ◌*◌, Bool, not, ◌&&◌, none, some, List, [], ◌∷◌, map, ltb, leb, ◌==◌, ◌=?◌, is_none,
  after?, before?, if◌then◌else◌, length, contains, set_size, sort, select, count_where,
  update_where,
}
use lucky_draw.Model.{
  Db, Ticket, TicketStatus, is_reserved, is_sold, Result, ok, err, bad_request, conflict, not_found,
  positions_empty, too_many_positions, duplicate_positions, already_holding, seats_missing,
  seat_sold, seat_taken,
}
use lucky_draw.Tx.{Tx, pure, gets, modify, throw_if, lift, ◌>>=◌, ◌>>◌}

abbrev pub reserve_ttl_ms : ℕ
reserve_ttl_ms = 5 * 60 * 1000

abbrev pub max_reserve_per_request : ℕ
max_reserve_per_request = 5

pub record Reservation : Type 0 where
  pub ticket_ids : List ℕ
  pub positions : List ℕ
  pub reserve_expires_at : ℕ

-- A seat that this user holds, and whose time is not over.
abbrev pub is_held_by : ℕ → ℕ → ℕ → Ticket → Bool
is_held_by kuji user now t =
    t.kuji_event_id == kuji
    && is_reserved t.status
    && t.reserved_by_user_id =? user
    && after? t.reserve_expires_at now

abbrev pub is_target : ℕ → List ℕ → Ticket → Bool
is_target kuji positions t = t.kuji_event_id == kuji && contains positions t.position

-- The body of the loop over the locked rows.
abbrev check_row : ℕ → ℕ → Ticket → Result (Unit {0})
check_row user now r =
    if is_sold r.status
    then err (conflict (seat_sold r.position))
    else if is_reserved r.status
        && after? r.reserve_expires_at now
        && not (r.reserved_by_user_id =? user)
    then err (conflict (seat_taken r.position))
    else ok tt

check_rows : ℕ → ℕ → List Ticket → Result (Unit {0})
check_rows user now [] = ok tt
check_rows user now (r ∷ rows) =
    let rest = check_rows user now rows in
    elim (check_row user now r) [ err e ↦ err e | ok _ ↦ rest ]

abbrev pub occupy : ℕ → ℕ → Ticket → Ticket
occupy user now t = record t {
  status = TicketStatus.reserved;
  reserved_by_user_id = some user;
  reserved_at = some now;
  reserve_expires_at = some (now + reserve_ttl_ms);
}

abbrev pub vacate : Ticket → Ticket
vacate t = record t {
  status = TicketStatus.available;
  reserved_by_user_id = none;
  reserved_at = none;
  reserve_expires_at = none;
}

-- The body of the transaction.
reserve_rows : ℕ → List ℕ → ℕ → ℕ → Tx Reservation
unfolding check_rows
reserve_rows kuji positions user now = do
  my_existing ← gets (λ db. count_where (is_held_by kuji user now) db.tickets)
  throw_if (ltb max_reserve_per_request (my_existing + length positions))
      (conflict (already_holding my_existing))
  rows ← gets (λ db. select (is_target kuji positions) db.tickets)
  throw_if (not (length rows == length positions)) (not_found seats_missing)
  lift (check_rows user now rows)
  modify (λ db. record db {
    tickets =
        update_where (λ t. contains (map (λ (r : Ticket). r.id) rows) t.id) (occupy user now)
          db.tickets;
  })
  pure (record {
    ticket_ids = map (λ (r : Ticket). r.id) rows;
    positions = sort (map (λ (r : Ticket). r.position) rows);
    reserve_expires_at = now + reserve_ttl_ms;
  })

unfoldable pub reserve : ℕ → List ℕ → ℕ → ℕ → Tx Reservation
unfolding reserve_rows
reserve kuji positions user now = do
  throw_if (length positions == 0) (bad_request positions_empty)
  throw_if (ltb max_reserve_per_request (length positions)) (bad_request too_many_positions)
  throw_if (not (set_size positions == length positions)) (bad_request duplicate_positions)
  reserve_rows kuji positions user now

-- A seat that this user holds, and that is in no order.
abbrev pub is_mine_to_release : ℕ → ℕ → Ticket → Bool
is_mine_to_release kuji user t =
    t.kuji_event_id == kuji
    && is_reserved t.status
    && t.reserved_by_user_id =? user
    && is_none t.order_id

unfoldable pub release_mine : ℕ → ℕ → Tx ℕ
release_mine kuji user db = ok (
  count_where (is_mine_to_release kuji user) db.tickets,
  record db { tickets = update_where (is_mine_to_release kuji user) vacate db.tickets },
)

-- A held seat that is in no order, and whose time is over.
abbrev pub is_expired : ℕ → Ticket → Bool
is_expired now t = is_reserved t.status && is_none t.order_id && before? t.reserve_expires_at now

unfoldable pub release_expired : ℕ → Tx ℕ
release_expired now db = ok (
  count_where (is_expired now) db.tickets,
  record db { tickets = update_where (is_expired now) vacate db.tickets },
)
