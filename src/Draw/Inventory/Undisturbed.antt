-- ===== src/Draw/Inventory/Undisturbed.antt =====
-- A draw that no other transaction disturbs: it succeeds at its first attempt.
use lucky_draw.Common.{
  ℕ, ◌+◌, ◌-◌, ◌<◌, ◌≡◌, some, Bool, if◌then◌else◌, ◌&&◌, [], ◌∷◌, ◌++◌, ◌==◌, update_where,
}
use lucky_draw.Model.{Db, Inventory, DrawResult, Algorithm}
use lucky_draw.Tx.{Tx}
use lucky_draw.Draw.Pick.{TierRow}
use lucky_draw.Draw.Result.{Drawn}
use lucky_draw.Draw.Inventory.{Draw, is_unchanged, take_one, item_of_tier, result_row}

abbrev pub inventory_id : Inventory → ℕ
inventory_id i = i.id

-- An inventory as the query read it, with a piece left.
abbrev pub IsRead : TierRow → Inventory → Type 0
IsRead t i = (i.id ≡ t.inventory_id) × (i.version ≡ t.version) × (0 < i.remaining_quantity)

abbrev pub one_less : Inventory → Inventory
one_less i = record i { remaining_quantity = i.remaining_quantity - 1; version = i.version + 1 }

-- What such a draw does to the tables, if it gives the ticket a prize of the row `t`.
module _ (d : Draw) (index : ℕ) (award : Bool) where
  abbrev pub is_same_ticket : DrawResult → Bool
  is_same_ticket x = x.order_id == d.order && x.ticket_index == index

  abbrev pub awarded : TierRow → Db → Db
  awarded t db = record db {
    inventories = update_where (is_unchanged t) take_one db.inventories;
    draw_results = db.draw_results ++ result_row d index award t (item_of_tier db t.tier.id) ∷ [];
  }

  -- What is kept of the draw, and what the user is shown.
  abbrev pub recorded : TierRow → Db → DrawResult
  recorded t db = record {
    order_id = d.order;
    user_id = d.user;
    kuji_event_id = d.kuji;
    ticket_index = index;
    prize_tier_id = t.tier.id;
    prize_item_id = item_of_tier db t.tier.id;
    algorithm = if award then Algorithm.last_prize else Algorithm.weighted_remaining;
  }

  abbrev pub prize : TierRow → Db → Drawn
  prize t db = record {
    ticket_index = index;
    tier_id = t.tier.id;
    tier = some t.tier;
    prize_item_id = item_of_tier db t.tier.id;
  }
