-- ===== src/Draw/Execute/Tickets.antt =====
-- What a draw of seats gives: each seat its own prize, in the order of the seats.
use lucky_draw.Common.{
  ℕ, ◌+◌, ◌≡◌, refl, sym, ◌∙◌, Bool, true, none, map, find, contains, update_where, Pointwise,
  Rewrites, update_where-Rewrites, ◌&&◌, List, [], ◌∷◌, ◌++◌, leb, ◌==◌, count_where, arith,
}
use lucky_draw.Model.{Db, Order, Ticket, TicketStatus, PrizeTier, DrawResult, Algorithm, ok}
use lucky_draw.Draw.Result.{Drawn, insert_result}
use lucky_draw.Draw.Execute.{draw_tickets, draw_ticket, sell_ticket, sell_seat, ticket_row}

unfoldable pub drawn_from : Db → ℕ → List Ticket → List Drawn
drawn_from db index [] = []
drawn_from db index (t ∷ ts) =
    record {
      ticket_index = index;
      tier_id = t.prize_tier_id;
      tier = find (λ (pt : PrizeTier). pt.id == t.prize_tier_id) db.prize_tiers;
      prize_item_id = t.prize_item_id;
    }
    ∷ drawn_from db (index + 1) ts

unfoldable sell_tickets : List Ticket → List Ticket → List Ticket
sell_tickets [] table = table
sell_tickets (t ∷ ts) table = sell_tickets ts (sell_ticket t.id table)

-- One of the seats that are drawn.
abbrev pub IsAmong : List Ticket → Ticket → Type 0
IsAmong ts t = contains (map (λ (x : Ticket). x.id) ts) t.id ≡ true

-- The seat when it is sold for good.
abbrev pub sold_for_good : Ticket → Ticket
sold_for_good t = record {
  id = t.id;
  kuji_event_id = t.kuji_event_id;
  position = t.position;
  prize_tier_id = t.prize_tier_id;
  prize_item_id = t.prize_item_id;
  status = TicketStatus.sold;
  reserved_by_user_id = none;
  reserved_at = none;
  reserve_expires_at = none;
  order_id = t.order_id;
}

abbrev is_among : List Ticket → Ticket → Bool
is_among ts t = contains (map (λ (x : Ticket). x.id) ts) t.id

-- Selling one seat after the other, or all at once.
sell_first :
    (t : Ticket) (ts table : List Ticket)
    → update_where (is_among ts) sell_seat (sell_ticket t.id table)
      ≡ update_where (is_among (t ∷ ts)) sell_seat table
sell_first t ts [] = refl
sell_first t ts (x ∷ table) = ground (arith, sell_first t ts table)

sell_none : (table : List Ticket) → update_where (is_among []) sell_seat table ≡ table
sell_none [] = refl
sell_none (x ∷ table) = ground (arith, sell_none table)

sell_tickets_lem :
    (ts table : List Ticket) → sell_tickets ts table ≡ update_where (is_among ts) sell_seat table
unfolding sell_tickets
sell_tickets_lem [] table = sym (sell_none table)
sell_tickets_lem (t ∷ ts) table =
    sell_tickets_lem ts (sell_ticket t.id table) ∙ sell_first t ts table

sell_tickets-Rewrites :
    (ts table : List Ticket)
    → Pointwise (Rewrites (IsAmong ts) sold_for_good) table (sell_tickets ts table)
sell_tickets-Rewrites ts table = rw (sell_tickets_lem ts table) (
    update_where-Rewrites (IsAmong ts) (is_among ts) sold_for_good sell_seat (λ t. refl) (λ t h. h)
      (λ t h. h) table)

module _ (user kuji : ℕ) (order : Order) where
  -- A result of this order with this index or a later one.
  abbrev pub is_from : ℕ → DrawResult → Bool
  is_from index d = d.order_id == order.id && leb index d.ticket_index

  unfoldable pub rows_from : ℕ → List Ticket → List DrawResult
  rows_from index [] = []
  rows_from index (t ∷ ts) =
      record {
        order_id = order.id;
        user_id = user;
        kuji_event_id = kuji;
        ticket_index = index;
        prize_tier_id = t.prize_tier_id;
        prize_item_id = t.prize_item_id;
        algorithm = Algorithm.preassigned;
      }
      ∷ rows_from (index + 1) ts

  unfoldable after_tickets : ℕ → List Ticket → Db → Db
  unfolding rows_from sell_tickets
  after_tickets index ts db = record db {
    tickets = sell_tickets ts db.tickets;
    draw_results = db.draw_results ++ rows_from index ts;
  }

  -- The results of the earlier seats do not get in the way of the later ones.
  none_from_later :
      (index : ℕ) (t : Ticket) (ds : List DrawResult)
      → count_where (is_from index) ds ≡ 0
      → count_where (is_from (index + 1)) (ds ++ ticket_row user kuji order index t ∷ []) ≡ 0
  none_from_later index t [] h = ground arith
  none_from_later index t (d ∷ ds) h = ground (arith, none_from_later index t ds)

  none_here :
      (index : ℕ) (ds : List DrawResult)
      → count_where (is_from index) ds ≡ 0
      → count_where (λ (x : DrawResult). x.order_id == order.id && x.ticket_index == index) ds ≡ 0
  none_here index [] h = refl
  none_here index (d ∷ ds) h = ground (arith, none_here index ds)

  append_assoc : (ds es : List DrawResult) (d : DrawResult) → (ds ++ d ∷ []) ++ es ≡ ds ++ d ∷ es
  append_assoc [] es d = refl
  append_assoc (x ∷ ds) es d = rw (append_assoc ds es d)

  append_nil : (ds : List DrawResult) → ds ++ [] ≡ ds
  append_nil [] = refl
  append_nil (x ∷ ds) = rw (append_nil ds)

  -- What a seat shows depends on the tiers alone.
  drawn_from_after :
      (ts us : List Ticket) (ds : List DrawResult) (db : Db) (index : ℕ)
      → drawn_from (record db { tickets = us; draw_results = ds }) index ts ≡ drawn_from db index ts
  unfolding drawn_from
  drawn_from_after [] us ds db index = refl
  drawn_from_after (t ∷ ts) us ds db index = rw (drawn_from_after ts us ds db (index + 1))

  abbrev after_ticket : ℕ → Ticket → Db → Db
  after_ticket index t db = record db {
    tickets = sell_ticket t.id db.tickets;
    draw_results = db.draw_results ++ ticket_row user kuji order index t ∷ [];
  }

  draw_ticket-ok :
      (index : ℕ) (t : Ticket) (db : Db)
      → count_where (is_from index) db.draw_results ≡ 0
      → draw_ticket user kuji order index t db ≡ ok (tt, after_ticket index t db)
  unfolding insert_result
  draw_ticket-ok index t db h = ground (arith, none_here index db.draw_results)

  all_tickets :
      (index : ℕ) (ts : List Ticket) (db : Db)
      → count_where (is_from index) db.draw_results ≡ 0
      → draw_tickets user kuji order index ts db
        ≡ ok (drawn_from db index ts, after_tickets index ts db)
  unfolding draw_tickets drawn_from rows_from sell_tickets after_tickets
  all_tickets index [] db h = rw (append_nil db.draw_results)
  all_tickets index (t ∷ ts) db h = ground (
    arith,
    draw_ticket-ok index t db,
    all_tickets (index + 1) ts (after_ticket index t db),
    none_from_later index t db.draw_results,
    drawn_from_after ts (sell_ticket t.id db.tickets)
        (db.draw_results ++ ticket_row user kuji order index t ∷ []) db (index + 1),
    append_assoc db.draw_results (rows_from (index + 1) ts) (ticket_row user kuji order index t),
  )

  -- If the order has no result with this index or a later one, the loop over the seats succeeds. It
  -- gives each seat the prize that the seat was dealt, with consecutive indices in the order of the
  -- list, and adds these results. Exactly these seats become sold and lose their holder and their
  -- times; every other seat and every other table stays as it was.
  pub draw_tickets-ok :
      (index : ℕ) (ts : List Ticket) (db : Db)
      → count_where (is_from index) db.draw_results ≡ 0
      → (after : List Ticket) × (draw_tickets user kuji order index ts db
          ≡ ok (
            drawn_from db index ts,
            record db { tickets = after; draw_results = db.draw_results ++ rows_from index ts },
          ))
        × Pointwise (Rewrites (IsAmong ts) sold_for_good) db.tickets after
  unfolding after_tickets
  draw_tickets-ok index ts db h =
      (sell_tickets ts db.tickets, all_tickets index ts db h, sell_tickets-Rewrites ts db.tickets)
