-- ===== src/Ticket/Grid/Hiding.antt =====
-- The grid tells nothing of the prizes of the seats that are not sold.
use lucky_draw.Common.{
  ℕ, ◌≡◌, refl, Option, List, [], ◌∷◌, map, arith, select, sort_by, map-sort_by, if◌then◌else◌,
}
use lucky_draw.Model.{Db, Ticket, is_sold}
use lucky_draw.Ticket.Grid.{seat_view, list_grid, by_position, is_in_kuji}

-- Other prizes behind the seats that are not sold.
abbrev pub reassign : (Ticket → ℕ) → (Ticket → Option ℕ) → Ticket → Ticket
reassign tier item t =
    if is_sold t.status then t else record t { prize_tier_id = tier t; prize_item_id = item t }

module _ (tier : Ticket → ℕ) (item : Ticket → Option ℕ) where
  select-reassign :
      (kuji : ℕ) (xs : List Ticket)
      → select (is_in_kuji kuji) (map (reassign tier item) xs)
        ≡ map (reassign tier item) (select (is_in_kuji kuji) xs)
  select-reassign kuji [] = refl
  select-reassign kuji (x ∷ xs) = ground (arith, select-reassign kuji xs)

  seat_view-reassign :
      (db : Db) (viewer : Option ℕ) (now : ℕ) (t : Ticket)
      → seat_view db viewer now (reassign tier item t) ≡ seat_view db viewer now t
  unfolding seat_view
  seat_view-reassign db viewer now t = ground arith

  views-reassign :
      (db : Db) (viewer : Option ℕ) (now : ℕ) (xs : List Ticket)
      → map (seat_view db viewer now) (map (reassign tier item) xs)
        ≡ map (seat_view db viewer now) xs
  views-reassign db viewer now [] = refl
  views-reassign db viewer now (x ∷ xs) =
      ground (arith, seat_view-reassign db viewer now x, views-reassign db viewer now xs)

  reassign-position : (t : Ticket) → by_position (reassign tier item t) ≡ by_position t
  reassign-position t = ground arith

  -- Two databases that differ only in the prizes behind seats that are not sold show every viewer
  -- the same grid at every time.
  pub list_grid-reassign :
      (kuji : ℕ) (viewer : Option ℕ) (now : ℕ) (db : Db)
      → list_grid kuji viewer now (record db { tickets = map (reassign tier item) db.tickets })
        ≡ list_grid kuji viewer now db
  unfolding list_grid
  list_grid-reassign kuji viewer now db =
      rw
        (
          select-reassign kuji db.tickets,
          ← map-sort_by by_position (reassign tier item) reassign-position
              (select (is_in_kuji kuji) db.tickets),
        )
        (views-reassign db viewer now (sort_by by_position (select (is_in_kuji kuji) db.tickets)))
