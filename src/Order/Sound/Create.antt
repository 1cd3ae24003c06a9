-- ===== src/Order/Sound/Create.antt =====
-- Placing an order keeps the books of the events.
use lucky_draw.Common.{
  ℕ, ◌+◌, ◌≤◌, ◌≡◌, refl, true, Bool, List, [], ◌∷◌, ◌++◌, map, arith, ◌==◌, contains, sum_where,
  update_where, All, Distinct, sum_where-append, length, if◌then◌else◌, String,
}
use lucky_draw.Model.{Db, KujiEvent, Order, ok}
use lucky_draw.Cipher.{Cipher}
use lucky_draw.Order.Shipping.{CreateOrder}
use lucky_draw.Order.Create.{
  Request, create_tx, create_with_tickets_tx, is_claimable, has_room, sell, new_order,
}
use lucky_draw.Order.Create.Steps.{Placed, create_tx-Placed, create_with_tickets_tx-Placed}
use lucky_draw.Order.Sound.{IsSound, IsSoldExact, is_counted, quantity, event_id, only_row}

module _ (kuji count : ℕ) (claim : KujiEvent → Bool)
    (room : (e : KujiEvent) → claim e ≡ true → e.sold_tickets + count ≤ e.total_tickets)
    (r : Request) (price : ℕ) (snapshot : String) where
  -- The sum over the orders of an event, with the new order.
  sum_with_new :
      (e : KujiEvent) (orders : List Order)
      → sum_where (is_counted e.id) quantity (orders ++ new_order r kuji count price snapshot ∷ [])
        ≡ sum_where (is_counted e.id) quantity orders + (if e.id == kuji then count else 0)
  sum_with_new e orders = ground (
    arith,
    sum_where-append (is_counted e.id) quantity orders (new_order r kuji count price snapshot ∷ []),
  )

  sold_after :
      (orders : List Order) (es : List KujiEvent)
      → All (λ e. claim e ≡ (e.id == kuji)) es
      → All (IsSoldExact orders) es
      → All
          (IsSoldExact (orders ++ new_order r kuji count price snapshot ∷ []))
          (update_where claim (sell count) es)
  sold_after orders [] hit h = tt
  sold_after orders (e ∷ es) hit h =
      ground (arith, room e, sum_with_new e orders, sold_after orders es hit.1 h.1)

sell-event_id :
    (claim : KujiEvent → Bool) (count k : ℕ) (es : List KujiEvent)
    → contains (map event_id (update_where claim (sell count) es)) k ≡ contains (map event_id es) k
sell-event_id claim count k [] = refl
sell-event_id claim count k (e ∷ es) = ground (arith, sell-event_id claim count k es)

sell-Distinct :
    (claim : KujiEvent → Bool) (count : ℕ) (es : List KujiEvent)
    → Distinct event_id es
    → Distinct event_id (update_where claim (sell count) es)
sell-Distinct claim count [] h = tt
sell-Distinct claim count (e ∷ es) h =
    ground (arith, sell-event_id claim count e.id es, sell-Distinct claim count es h.1)

Placed-IsSound :
    (r : Request) (dto : CreateOrder) (count : ℕ) (claim : KujiEvent → Bool) (db db' : Db)
    (o : Order)
    → ((e : KujiEvent) → claim e ≡ true → e.id ≡ dto.kuji_event_id)
    → ((e : KujiEvent) → claim e ≡ true → e.sold_tickets + count ≤ e.total_tickets)
    → Placed r dto count claim db.kuji_events db.orders db' o
    → IsSound db
    → IsSound db'
Placed-IsSound r dto count claim db db' o of_kuji room p (distinct, exact) = (
  rw p.sold (sell-Distinct claim count db.kuji_events distinct),
  rw (p.sold, p.added, p.priced)
      (sold_after dto.kuji_event_id count claim room r p.event.price_per_ticket p.snapshot db.orders
        db.kuji_events (only_row dto.kuji_event_id claim of_kuji db.kuji_events distinct p.claimed)
        exact),
)

module _ (cipher : Cipher) (r : Request) (dto : CreateOrder) (db : Db) {o : Order} {db' : Db} where
  -- If the books of the events are in order, they are in order after an order of the first flow
  -- that goes through; so no event is sold beyond its tickets.
  pub create_tx-IsSound :
      (count : ℕ) → IsSound db → create_tx cipher r dto count db ≡ ok (o, db') → IsSound db'
  create_tx-IsSound count sound h =
      Placed-IsSound r dto count (is_claimable dto.kuji_event_id count r.now) db db' o
        (λ e c. ground arith) (λ e c. ground arith) (create_tx-Placed cipher r dto db count h).0
        sound

  -- If the books of the events are in order, they are in order after an order of seats that goes
  -- through.
  pub create_with_tickets_tx-IsSound :
      IsSound db → create_with_tickets_tx cipher r dto db ≡ ok (o, db') → IsSound db'
  create_with_tickets_tx-IsSound sound h =
      Placed-IsSound r dto (length dto.ticket_ids)
        (has_room dto.kuji_event_id (length dto.ticket_ids)) db db' o (λ e c. ground arith)
        (λ e c. ground arith) (create_with_tickets_tx-Placed cipher r dto db h).0 sound
