-- ===== src/Ticket/Grid.antt =====
-- The grid of seats that users and operators see (apps/backend/src/ticket/ticket.service.ts:
-- listGrid, adminListGrid).
pub mod Hiding
use lucky_draw.Common.{
  ℕ, Bool, true, false, not, ◌&&◌, Option, none, some, String, List, map, ◌==◌, ◌=?◌, before?,
  if◌then◌else◌, select, find, sort_by,
}
use lucky_draw.Model.{Db, Ticket, TicketStatus, PrizeTier, is_reserved, is_sold}

pub record SeatView : Type 0 where
  pub id : ℕ
  pub position : ℕ
  pub status : TicketStatus
  pub mine : Bool
  pub rank : Option String
  pub tier_name : Option String
  pub is_last_prize : Bool
  pub reserve_expires_at : Option ℕ

-- The joined row `t.prizeTier`; a foreign key holds it in place.
abbrev pub tier_of : Db → ℕ → Option PrizeTier
tier_of db tier = find (λ (pt : PrizeTier). pt.id == tier) db.prize_tiers

abbrev rank_of : Option PrizeTier → Option String
rank_of none = none
rank_of (some pt) = some pt.rank

abbrev name_of : Option PrizeTier → Option String
name_of none = none
name_of (some pt) = some pt.name

abbrev last_of : Option PrizeTier → Bool
last_of none = false
last_of (some pt) = pt.is_last_prize

abbrev is_expired_hold : ℕ → Ticket → Bool
is_expired_hold now t = is_reserved t.status && before? t.reserve_expires_at now

-- `t.reservedByUserId && t.reservedByUserId === viewerUserId`; a visitor has no identifier.
abbrev is_viewer : Option ℕ → Option ℕ → Bool
is_viewer holder none = false
is_viewer holder (some viewer) = holder =? viewer

seat_view : Db → Option ℕ → ℕ → Ticket → SeatView
seat_view db viewer now t =
    let expired = is_expired_hold now t in
    let effective_status = if expired then TicketStatus.available else t.status in
    let mine = not expired && is_viewer t.reserved_by_user_id viewer in
    let tier = tier_of db t.prize_tier_id in
    record {
      id = t.id;
      position = t.position;
      status = effective_status;
      mine = mine;
      rank = if is_sold effective_status then rank_of tier else none;
      tier_name = if is_sold effective_status then name_of tier else none;
      is_last_prize = if is_sold effective_status then last_of tier else false;
      reserve_expires_at = if mine then t.reserve_expires_at else none;
    }

abbrev pub by_position : Ticket → ℕ
by_position t = t.position

abbrev pub is_in_kuji : ℕ → Ticket → Bool
is_in_kuji kuji t = t.kuji_event_id == kuji

unfoldable pub list_grid : ℕ → Option ℕ → ℕ → Db → List SeatView
unfolding seat_view
list_grid kuji viewer now db =
    map (seat_view db viewer now) (sort_by by_position (select (is_in_kuji kuji) db.tickets))

pub record AdminSeat : Type 0 where
  pub id : ℕ
  pub position : ℕ
  pub status : TicketStatus
  pub prize_tier : Option PrizeTier
  pub prize_item : Option ℕ

admin_seat : Db → Ticket → AdminSeat
admin_seat db t = record {
  id = t.id;
  position = t.position;
  status = t.status;
  prize_tier = tier_of db t.prize_tier_id;
  prize_item = t.prize_item_id;
}

unfoldable pub admin_list_grid : ℕ → Db → List AdminSeat
unfolding admin_seat
admin_list_grid kuji db =
    map (admin_seat db) (sort_by by_position (select (is_in_kuji kuji) db.tickets))
