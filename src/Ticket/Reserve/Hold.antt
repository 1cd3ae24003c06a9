-- ===== src/Ticket/Reserve/Hold.antt =====
-- What a successful call of `reserve` has done.
use lucky_draw.Common.{
  ℕ, ◌+◌, ◌≤◌, ◌≡◌, not, ◌&&◌, List, [], ◌∷◌, map, arith, length, contains, select, count_where,
  update_where, Distinct, update_where-contains-select, length-select, Bool, after?, ◌=?◌, ◌||◌,
  true, some,
}
use lucky_draw.Model.{Db, Ticket, TicketStatus, ok, is_reserved, is_sold}
use lucky_draw.Ticket.Reserve.{
  Reservation, reserve, check_rows, is_target, is_held_by, occupy, max_reserve_per_request,
  reserve_ttl_ms,
}

-- A seat that is sold, or that another user holds at this time.
abbrev pub is_blocked : ℕ → ℕ → Ticket → Bool
is_blocked user now t =
    is_sold t.status
    || (is_reserved t.status
        && after? t.reserve_expires_at now
        && not (t.reserved_by_user_id =? user))

abbrev pub by_id : Ticket → ℕ
by_id t = t.id

check_rows-count_where :
    (user now : ℕ) (rows : List Ticket)
    → check_rows user now rows ≡ ok tt
    → count_where (is_blocked user now) rows ≡ 0
unfolding check_rows
check_rows-count_where user now [] h = omega arith
check_rows-count_where user now (r ∷ rows) h = ground (arith, check_rows-count_where user now rows)

-- The facts that a successful call has checked, and the tables that it leaves.
pub record Held (kuji : ℕ) (positions : List ℕ) (user now : ℕ) (db db' : Db) (r : Reservation)
    : Type 0 where
  pub room :
      count_where (is_held_by kuji user now) db.tickets + length positions ≤ max_reserve_per_request
  pub found : count_where (is_target kuji positions) db.tickets ≡ length positions
  pub free : count_where (is_blocked user now) (select (is_target kuji positions) db.tickets) ≡ 0
  pub named : r.reserve_expires_at ≡ now + reserve_ttl_ms
  pub written : db' ≡ record db {
    tickets =
        update_where
          (λ t. contains (map by_id (select (is_target kuji positions) db.tickets)) t.id)
          (occupy user now)
          db.tickets;
  }

pub reserve-Held :
    (kuji : ℕ) (positions : List ℕ) (user now : ℕ) (db : Db) {r : Reservation} {db' : Db}
    → reserve kuji positions user now db ≡ ok (r, db')
    → Held kuji positions user now db db' r
unfolding reserve
reserve-Held kuji positions user now db h = ground (
  arith,
  length-select (is_target kuji positions) db.tickets,
  check_rows-count_where user now (select (is_target kuji positions) db.tickets),
)

-- The seats that are written are the ones that were asked for.
pub Held-tickets :
    (kuji : ℕ) (positions : List ℕ) (user now : ℕ) (db db' : Db) {r : Reservation}
    → Distinct by_id db.tickets
    → Held kuji positions user now db db' r
    → db'.tickets ≡ update_where (is_target kuji positions) (occupy user now) db.tickets
Held-tickets kuji positions user now db db' unique held = rw held.written (
    update_where-contains-select by_id (is_target kuji positions) (occupy user now) db.tickets
      unique)

-- A seat that was asked for.
abbrev pub IsWanted : ℕ → List ℕ → Ticket → Type 0
IsWanted kuji positions t = (t.kuji_event_id ≡ kuji) × (contains positions t.position ≡ true)

-- The seat as the user holds it for five minutes.
abbrev pub held_for : ℕ → ℕ → Ticket → Ticket
held_for user now t = record {
  id = t.id;
  kuji_event_id = t.kuji_event_id;
  position = t.position;
  prize_tier_id = t.prize_tier_id;
  prize_item_id = t.prize_item_id;
  status = TicketStatus.reserved;
  reserved_by_user_id = some user;
  reserved_at = some now;
  reserve_expires_at = some (now + 300000);
  order_id = t.order_id;
}
