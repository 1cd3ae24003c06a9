-- ===== src/Tests/Draws.antt =====
-- Draws in the small shop.
use lucky_draw.Common.{
  ℕ, zero, suc, ◌≡◌, refl, true, false, none, some, List, [], ◌∷◌, ◌++◌, arith, Pointwise, Rewrites,
}
use lucky_draw.Model.{Db, Order, OrderStatus, Ticket, ok}
use lucky_draw.Order.Create.{new_order}
use lucky_draw.Shipment.{create_for_order}
use lucky_draw.Draw.Pick.{TierRow, pick_tier, total_weight}
use lucky_draw.Draw.Pick.Weights.{pick_tier-interval}
use lucky_draw.Draw.Result.{Summary, load_results, insert_result, is_last_prize_order}
use lucky_draw.Draw.Inventory.{Draw, draw_one, drawn_row, joined}
use lucky_draw.Draw.Inventory.Cas.{IsAward, draw_one-IsAward}
use lucky_draw.Draw.Inventory.Undisturbed.{awarded}
use lucky_draw.Draw.Execute.{draw_tickets, execute_for_tickets, execute}
use lucky_draw.Draw.Execute.Tickets.{drawn_from, rows_from, IsAmong, sold_for_good, draw_tickets-ok}
use lucky_draw.Draw.Execute.Once.{execute-execute_for_tickets}
use lucky_draw.Tests.Fixtures.{shop, plain, event, seat, tier, stock_of, request, state_of}

abbrev paid_order : Order
paid_order = record (new_order request 1 2 700 "Kim") { status = OrderStatus.paid }

abbrev bound : ℕ → ℕ → Ticket
bound position tier = record (seat position tier) { order_id = some 500 }

abbrev paid : Db
paid = record shop {
  kuji_events = record event { sold_tickets = 2 } ∷ [];
  tickets = bound 1 10 ∷ seat 2 11 ∷ bound 3 10 ∷ [];
  orders = paid_order ∷ [];
}

draw_tickets-ok_example :
    (after : List Ticket) × (draw_tickets 7 1 paid_order 1 (bound 1 10 ∷ bound 3 10 ∷ []) paid
      ≡ ok (
        drawn_from paid 1 (bound 1 10 ∷ bound 3 10 ∷ []),
        record paid {
          tickets = after;
          draw_results =
              paid.draw_results ++ rows_from 7 1 paid_order 1 (bound 1 10 ∷ bound 3 10 ∷ []);
        },
      ))
    × Pointwise (Rewrites (IsAmong (bound 1 10 ∷ bound 3 10 ∷ [])) sold_for_good) paid.tickets after
draw_tickets-ok_example = draw_tickets-ok 7 1 paid_order 1 (bound 1 10 ∷ bound 3 10 ∷ []) paid refl

abbrev drawn : Db
drawn = state_of (execute_for_tickets plain 60 900 7 1 paid_order paid)

abbrev summary : Summary
summary = record {
  order_id = 500;
  ticket_count = 2;
  results =
      record { ticket_index = 1; tier_id = 10; tier = some (tier 10 false 2); prize_item_id = none }
      ∷ record {
        ticket_index = 2;
        tier_id = 10;
        tier = some (tier 10 false 2);
        prize_item_id = none;
      }
      ∷ [];
}

execute-execute_for_tickets_example :
    execute plain 99 901 (λ total attempt. 0) (λ attempt db. db) 7 500 drawn
    ≡ ok (load_results 500 drawn, drawn)
unfolding execute_for_tickets create_for_order is_last_prize_order insert_result
execute-execute_for_tickets_example =
    execute-execute_for_tickets plain 60 900 7 1 paid_order paid drawn summary refl 99 901
      (λ total attempt. 0) (λ attempt db. db) refl refl refl

abbrev lot : Draw
lot = record {
  kuji = 1;
  order = 500;
  user = 7;
  draw_random = λ total attempt. 2;
  others = λ attempt db. db;
}

-- Another buyer takes a piece of the last prize, and gives it back: the version is a new one, and the
-- first attempt fails.
abbrev touch : ℕ → Db → Db
touch zero db = record db {
  inventories =
      stock_of 30 10 2 ∷ stock_of 31 11 1 ∷ record (stock_of 32 12 1) { version = 9 } ∷ [];
}
touch (suc attempt) db = db

abbrev busy : Draw
busy = record lot { draw_random = λ total attempt. 0; others = touch }

abbrev last_row : TierRow
last_row = joined (tier 12 true 1) (record (stock_of 32 12 1) { version = 9 })

draw_one-IsAward_example : IsAward busy 3 true (drawn_row busy 3 true last_row none)
unfolding draw_one insert_result
draw_one-IsAward_example =
    draw_one-IsAward busy 3 true paid (awarded busy 3 true last_row (touch 0 paid))
      (drawn_row busy 3 true last_row none) refl

abbrev first_row : TierRow
first_row = joined (tier 10 false 2) (stock_of 30 10 2)

abbrev second_row : TierRow
second_row = joined (tier 11 false 1) (stock_of 31 11 1)

pick_tier-interval_example : pick_tier 2 (first_row ∷ second_row ∷ []) ≡ some second_row
unfolding total_weight
pick_tier-interval_example =
    pick_tier-interval (first_row ∷ []) [] second_row 2 (omega arith) (omega arith)
