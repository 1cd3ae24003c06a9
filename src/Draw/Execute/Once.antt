-- ===== src/Draw/Execute/Once.antt =====
-- An order of seats is drawn once, and its draw keeps the books of the events.
use lucky_draw.Common.{
  ℕ, ◌+◌, ◌≡◌, refl, Bool, true, false, Option, none, some, List, [], ◌∷◌, ◌++◌, ◌==◌, find,
  count_where, sum_where, update_where, select, sort_by, length, All, arith,
}
use lucky_draw.Model.{
  Db, KujiEvent, Order, Ticket, PrizeTier, OrderStatus, ok, conflict, state_changed_concurrently,
  order_has_no_tickets,
}
use lucky_draw.Tx.{gets, pure, throw_if, ◌>>=◌, >>=-eq-ok}
use lucky_draw.Cipher.{Cipher}
use lucky_draw.Shipment.{create_for_order}
use lucky_draw.Shipment.Frame.{create_for_order-IsShipped}
use lucky_draw.Order.Sound.{IsSound, IsSoldExact, is_counted, quantity}
use lucky_draw.Draw.Result.{Drawn, Summary, insert_result, is_last_prize_order, load_results}
use lucky_draw.Draw.Execute.{
  draw_tickets, draw_ticket, ticket_drawn, execute_for_tickets, is_ticket_of, position, finish,
  bonus, give_bonus, is_last_tier, is_paid_order, drawn_order, execute,
}

-- What a draw leaves alone.
abbrev pub IsKept : Db → Db → Type 0
IsKept db db' =
    (db'.orders ≡ db.orders)
    × (db'.kuji_events ≡ db.kuji_events)
    × (db'.inventories ≡ db.inventories)

module _ (user kuji : ℕ) (order : Order) where
  draw_tickets-IsKept :
      (index : ℕ) (ts : List Ticket) (db db' : Db) (drawn : List Drawn)
      → draw_tickets user kuji order index ts db ≡ ok (drawn, db')
      → IsKept db db'
  unfolding draw_tickets insert_result
  draw_tickets-IsKept index [] db db' drawn h = ground arith
  draw_tickets-IsKept index (t ∷ ts) db db' drawn h =
      let first =
        >>=-eq-ok (draw_ticket user kuji order index t)
          (λ _. gets (λ db. ticket_drawn db index t) >>= λ shown.
            draw_tickets user kuji order (index + 1) ts >>= λ more. pure (shown ∷ more))
          db h in
      let mid = first.1 in
      let later =
        >>=-eq-ok (draw_tickets user kuji order (index + 1) ts)
          (λ more. pure (ticket_drawn mid index t ∷ more)) mid first.3 in
      ground (
        arith,
        first.2,
        later.3,
        draw_tickets-IsKept (index + 1) ts mid (later.1) (later.0) (later.2),
      )

  give_bonus-IsKept :
      (index : ℕ) (o : Option PrizeTier) (db db' : Db) (drawn : List Drawn)
      → give_bonus user kuji order index o db ≡ ok (drawn, db')
      → IsKept db db'
  unfolding give_bonus insert_result
  give_bonus-IsKept index none db db' drawn h = ground arith
  give_bonus-IsKept index (some pt) db db' drawn h = ground arith

  bonus-IsKept :
      (index : ℕ) (last : Bool) (db db' : Db) (drawn : List Drawn)
      → bonus user kuji order index last db ≡ ok (drawn, db')
      → IsKept db db'
  unfolding bonus
  bonus-IsKept index false db db' drawn h = ground arith
  bonus-IsKept index true db db' drawn h =
      give_bonus-IsKept index (find (is_last_tier kuji) db.prize_tiers) db db' drawn h

module _ (cipher : Cipher) (now fresh : ℕ) (order : Order) where
  abbrev pub IsFinished : Db → Db → Type 0
  IsFinished db db' =
      (db'.orders ≡ update_where (is_paid_order order.id) (drawn_order now) db.orders)
      × (db'.kuji_events ≡ db.kuji_events)
      × (db'.inventories ≡ db.inventories)

  pub finish-IsFinished :
      (drawn : List Drawn) (db db' : Db) (s : Summary)
      → finish cipher now fresh order drawn db ≡ ok (s, db')
      → IsFinished db db'
  unfolding finish
  finish-IsFinished drawn db db' s h =
      let guard =
        >>=-eq-ok
          (throw_if (count_where (is_paid_order order.id) db.orders == 0)
            (conflict state_changed_concurrently))
          (λ _. create_for_order cipher fresh order.id order.shipping_snapshot >>= λ _.
            pure (record { order_id = order.id; ticket_count = length drawn; results = drawn }))
          (record db { orders = update_where (is_paid_order order.id) (drawn_order now) db.orders })
          h in
      let mid = guard.1 in
      let made =
        >>=-eq-ok (create_for_order cipher fresh order.id order.shipping_snapshot)
          (λ _. pure (record { order_id = order.id; ticket_count = length drawn; results = drawn }))
          mid guard.3 in
      let shipped =
        create_for_order-IsShipped cipher fresh order.id order.shipping_snapshot mid (made.1)
          {u = made.0} (made.2) in
      ground (arith, guard.2, made.3, shipped.1)

-- The sum that the books keep does not see whether a paid order has been drawn.
sum_drawn :
    (now id k : ℕ) (os : List Order)
    → sum_where (is_counted k) quantity (update_where (is_paid_order id) (drawn_order now) os)
      ≡ sum_where (is_counted k) quantity os
sum_drawn now id k [] = refl
sum_drawn now id k (o ∷ os) = ground (arith, sum_drawn now id k os)

pub still_exact :
    (now id : ℕ) (os : List Order) (es : List KujiEvent)
    → All (IsSoldExact os) es
    → All (IsSoldExact (update_where (is_paid_order id) (drawn_order now) os)) es
still_exact now id os [] h = tt
still_exact now id os (e ∷ es) h =
    ground (arith, sum_drawn now id e.id os, still_exact now id os es)

find_drawn :
    (now id : ℕ) (o : Order) (os : List Order)
    → find (λ (o : Order). o.id == id) os ≡ some o
    → o.status ≡ OrderStatus.paid
    → find (λ (o : Order). o.id == id) (update_where (is_paid_order id) (drawn_order now) os)
      ≡ some (drawn_order now o)
find_drawn now id o [] e p = ground arith
find_drawn now id o (x ∷ os) e p = ground (arith, find_drawn now id o os)

module _ (cipher : Cipher) (now fresh user kuji : ℕ) (order : Order) (db db' : Db) (s : Summary)
    (done : execute_for_tickets cipher now fresh user kuji order db ≡ ok (s, db')) where
  -- A draw of seats that succeeds turns the paid order into a drawn one and touches no other order,
  -- no event and no inventory.
  pub execute_for_tickets-IsFinished : IsFinished cipher now fresh order db db'
  unfolding execute_for_tickets
  execute_for_tickets-IsFinished =
      let tickets = sort_by position (select (is_ticket_of order.id) db.tickets) in
      let after_bonus =
        λ (drawn : List Drawn) (more : List Drawn). finish cipher now fresh order (drawn ++ more) in
      let after_draw = λ (drawn : List Drawn). gets (is_last_prize_order kuji order.id) >>= λ last.
      bonus user kuji order (length tickets + 1) last >>= after_bonus drawn in
      let guard =
        >>=-eq-ok (throw_if (length tickets == 0) (conflict order_has_no_tickets))
          (λ _. draw_tickets user kuji order 1 tickets >>= after_draw) db done in
      let draw = >>=-eq-ok (draw_tickets user kuji order 1 tickets) after_draw guard.1 guard.3 in
      let more =
        >>=-eq-ok
          (bonus user kuji order (length tickets + 1) (is_last_prize_order kuji order.id draw.1))
          (after_bonus draw.0) draw.1 draw.3 in
      let first = draw_tickets-IsKept user kuji order 1 tickets guard.1 draw.1 draw.0 draw.2 in
      let second =
        bonus-IsKept user kuji order (length tickets + 1) (is_last_prize_order kuji order.id draw.1)
          draw.1 more.1 more.0 more.2 in
      let third = finish-IsFinished cipher now fresh order (draw.0 ++ more.0) more.1 db' s more.3 in
      ground (arith, guard.2, first, second, third)

  -- If the books of the events are in order, they are in order after a draw of seats that
  -- succeeds.
  pub execute_for_tickets-IsSound : IsSound db → IsSound db'
  execute_for_tickets-IsSound sound =
      let kept = execute_for_tickets-IsFinished in
      rw (kept.0, kept.1) (sound.0, still_exact now order.id db.orders db.kuji_events sound.1)

  -- After a draw of the seats of a paid order of this user that succeeds, executing the draw of
  -- the order again, whenever that is, gives the stored results and changes nothing.
  pub execute-execute_for_tickets :
      (later fresh' : ℕ) (draw_random : ℕ → ℕ → ℕ) (others : ℕ → Db → Db)
      → find (λ (o : Order). o.id == order.id) db.orders ≡ some order
      → order.status ≡ OrderStatus.paid
      → order.user_id ≡ user
      → execute cipher later fresh' draw_random others user order.id db'
        ≡ ok (load_results order.id db', db')
  unfolding execute
  execute-execute_for_tickets later fresh' draw_random others known paid mine =
      let kept = execute_for_tickets-IsFinished in
      let found = find_drawn now order.id order db.orders known paid in ground (arith, kept, found)
