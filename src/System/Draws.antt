-- ===== src/System/Draws.antt =====
-- A draw keeps the books, whatever other transactions that keep them do between its attempts.
use lucky_draw.Common.{
  ℕ, zero, suc, ◌+◌, ◌≡◌, refl, Bool, ◌&&◌, List, [], ◌∷◌, ltb, ◌==◌, find, count_where,
  update_where, arith, Distinct-updated, Option-cases, Bool-cases, inl, inr,
}
use lucky_draw.Model.{Db, Order, ok, is_drawn}
use lucky_draw.Tx.{Tx, pure, >>=-eq-ok, ◌>>=◌}
use lucky_draw.Cipher.{Cipher}
use lucky_draw.Order.Sound.Cancel.{order_id}
use lucky_draw.Draw.Pick.{TierRow, total_weight, choose_tier}
use lucky_draw.Draw.Result.{Drawn, Summary, insert_result, is_last_prize_order}
use lucky_draw.Draw.Inventory.{
  Draw, tier_rows, is_unchanged, take_one, compare_and_take, award_tier, attempts, draw_one,
  take_or_retry, attempt_with,
}
use lucky_draw.Draw.Execute.{
  draw_each, execute_for_inventory, execute_for, execute_paid, execute, is_paid_order, drawn_order,
  finish, is_ticket_of_kuji,
}
use lucky_draw.Draw.Execute.Once.{
  execute_for_tickets-IsFinished, IsFinished, finish-IsFinished, still_exact,
}
use lucky_draw.System.Booked.{IsBooked, untouched-IsBooked}

finished-IsBooked :
    (cipher : Cipher) (now fresh : ℕ) (order : Order) (db db' : Db)
    → IsFinished cipher now fresh order db db'
    → IsBooked db
    → IsBooked db'
finished-IsBooked cipher now fresh order db db' (os, es, _) ((distinct, exact), unique) =
    rw (os, es)
      (
        (distinct, still_exact now order.id db.orders db.kuji_events exact),
        Distinct-updated order_id (is_paid_order order.id) (drawn_order now) (λ o. refl) db.orders
            unique,
      )

module _ (d : Draw) (rely : (n : ℕ) (db : Db) → IsBooked db → IsBooked (d.others n db))
    (award : Bool) where
  award_tier-IsBooked :
      (index : ℕ) (t : TierRow) (db db' : Db) (r : Drawn)
      → award_tier d index award t db ≡ ok (r, db')
      → IsBooked db
      → IsBooked db'
  unfolding award_tier insert_result
  award_tier-IsBooked index t db db' r h booked = untouched-IsBooked db db' (ground arith) booked

  take_or_retry-IsBooked :
      (index : ℕ) (t : TierRow) (retry : Tx Drawn) (n : ℕ) (db db' : Db) (r : Drawn)
      → ((db1 : Db) → retry db1 ≡ ok (r, db') → IsBooked db1 → IsBooked db')
      → take_or_retry d index award t retry n db ≡ ok (r, db')
      → IsBooked db
      → IsBooked db'
  take_or_retry-IsBooked index t retry zero db db' r later h booked = later db h booked
  take_or_retry-IsBooked index t retry (suc n) db db' r later h booked =
      award_tier-IsBooked index t db db' r h booked

  attempt_with-IsBooked :
      (index attempt : ℕ) (retry : Tx Drawn) (rows : List TierRow) (db db' : Db) (r : Drawn)
      → ((db1 : Db) → retry db1 ≡ ok (r, db') → IsBooked db1 → IsBooked db')
      → attempt_with d index award attempt retry rows db ≡ ok (r, db')
      → IsBooked db
      → IsBooked db'
  unfolding compare_and_take
  attempt_with-IsBooked index attempt retry [] db db' r later h booked = absurd (ground arith)
  attempt_with-IsBooked index attempt retry (t ∷ ts) db db' r later h booked =
      let chosen = choose_tier (d.draw_random (total_weight (t ∷ ts)) attempt) t ts in
      let between = d.others attempt db in
      let taken = record between {
        inventories = update_where (is_unchanged chosen) take_one between.inventories;
      } in
      take_or_retry-IsBooked index chosen retry
        (count_where (is_unchanged chosen) between.inventories) taken db' r later h
        (untouched-IsBooked between taken (refl, refl) (rely attempt db booked))

  attempts-IsBooked :
      (index left attempt : ℕ) (db db' : Db) (r : Drawn)
      → attempts d index award left attempt db ≡ ok (r, db')
      → IsBooked db
      → IsBooked db'
  unfolding attempts
  attempts-IsBooked index zero attempt db db' r h booked = absurd (ground arith)
  attempts-IsBooked index (suc left) attempt db db' r h booked =
      attempt_with-IsBooked index attempt (attempts d index award left (attempt + 1))
        (tier_rows d.kuji award db.prize_tiers db.inventories) db db' r
        (λ db1 e. attempts-IsBooked index left (attempt + 1) db1 db' r e) h booked

draw_each-IsBooked :
    (d : Draw) (rely : (n : ℕ) (db : Db) → IsBooked db → IsBooked (d.others n db))
    → (last : Bool) (left index : ℕ) (db db' : Db) (drawn : List Drawn)
    → draw_each d last left index db ≡ ok (drawn, db')
    → IsBooked db
    → IsBooked db'
unfolding draw_each draw_one
draw_each-IsBooked d rely last zero index db db' drawn h booked =
    untouched-IsBooked db db' (ground arith) booked
draw_each-IsBooked d rely last (suc left) index db db' drawn h booked =
    let (chosen, mid, first, rest) =
      >>=-eq-ok (draw_one d index (last && left == 0))
        (λ chosen. draw_each d last left (index + 1) >>= λ drawn. pure (chosen ∷ drawn)) db h in
    let (more, end, later, done) =
      >>=-eq-ok (draw_each d last left (index + 1)) (λ drawn. pure (chosen ∷ drawn)) mid rest in
    untouched-IsBooked end db' (ground arith) (
      draw_each-IsBooked d rely last left (index + 1) mid end more later
        (attempts-IsBooked d rely (last && left == 0) index 5 0 db mid chosen first booked))

module _ (cipher : Cipher) (now fresh : ℕ) (draw_random : ℕ → ℕ → ℕ) (others : ℕ → Db → Db)
    (rely : (n : ℕ) (db : Db) → IsBooked db → IsBooked (others n db)) (user : ℕ) where
  abbrev draw_of : ℕ → Order → Draw
  draw_of kuji o = record {
    kuji = kuji;
    order = o.id;
    user = user;
    draw_random = draw_random;
    others = others;
  }

  inventory-IsBooked :
      (kuji : ℕ) (o : Order) (db db' : Db) (s : Summary)
      → execute_for_inventory cipher now fresh user kuji o (draw_of kuji o) db ≡ ok (s, db')
      → IsBooked db
      → IsBooked db'
  unfolding execute_for_inventory
  inventory-IsBooked kuji o db db' s h booked =
      let (drawn, mid, first, rest) =
        >>=-eq-ok (draw_each (draw_of kuji o) (is_last_prize_order kuji o.id db) o.ticket_count 1)
          (λ drawn. finish cipher now fresh o drawn) db h in
      finished-IsBooked cipher now fresh o mid db'
        (finish-IsFinished cipher now fresh o drawn mid db' s rest)
        (draw_each-IsBooked (draw_of kuji o) rely (is_last_prize_order kuji o.id db) o.ticket_count
          1 db mid drawn first booked)

  execute_for-IsBooked :
      (kuji : ℕ) (o : Order) (db db' : Db) (s : Summary)
      → execute_for cipher now fresh draw_random others user kuji o db ≡ ok (s, db')
      → IsBooked db
      → IsBooked db'
  unfolding execute_for
  execute_for-IsBooked kuji o db db' s h booked =
      elim (Bool-cases (ltb 0 (count_where (is_ticket_of_kuji o.id kuji) db.tickets))) [
        | inl seats ↦
            finished-IsBooked cipher now fresh o db db'
              (execute_for_tickets-IsFinished cipher now fresh user kuji o db db' s
                (ground (arith, seats)))
              booked
        | inr none_bound ↦ inventory-IsBooked kuji o db db' s (ground (arith, none_bound)) booked
      ]

  execute_paid-IsBooked :
      (o : Order) (db db' : Db) (s : Summary)
      → execute_paid cipher now fresh draw_random others user o db ≡ ok (s, db')
      → IsBooked db
      → IsBooked db'
  unfolding execute_paid
  execute_paid-IsBooked o db db' s h booked = elim (Option-cases o.kuji_event_id) [
    | inl e ↦ absurd (ground arith)
    | inr (kuji, e) ↦ execute_for-IsBooked kuji o db db' s (ground (arith, e)) booked
  ]

  -- Executing a draw keeps the books, if what other transactions do between its attempts does.
  pub execute-IsBooked :
      (order : ℕ) (db db' : Db) (s : Summary)
      → execute cipher now fresh draw_random others user order db ≡ ok (s, db')
      → IsBooked db
      → IsBooked db'
  unfolding execute
  execute-IsBooked order db db' s h booked =
      elim (Option-cases (find (λ (o : Order). o.id == order) db.orders)) [
        | inl e ↦ absurd (ground arith)
        | inr (o, e) ↦ elim (Bool-cases (is_drawn o.status)) [
          | inl drawn ↦ untouched-IsBooked db db' (ground (arith, e, drawn)) booked
          | inr not_drawn ↦ execute_paid-IsBooked o db db' s (ground (arith, e, not_drawn)) booked
        ]
      ]
