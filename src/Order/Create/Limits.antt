-- ===== src/Order/Create/Limits.antt =====
-- The price of an order, and the limit of a user.
use lucky_draw.Common.{
  ℕ, ◌+◌, ◌*◌, ◌≤◌, ◌≡◌, ap, ◌∙◌, Bool, some, List, [], ◌∷◌, ◌++◌, arith, sum_where,
  sum_where-append, length, String,
}
use lucky_draw.Model.{Db, KujiEvent, Order, OrderStatus, ok}
use lucky_draw.Cipher.{Cipher}
use lucky_draw.Order.Shipping.{CreateOrder}
use lucky_draw.Order.Create.{
  Request, create_tx, create_with_tickets_tx, is_claimable, has_room, is_active_order, tickets_of,
  new_order, kuji_of,
}
use lucky_draw.Order.Create.Steps.{Placed, create_tx-Placed, create_with_tickets_tx-Placed}

-- What the new order costs, and what its user then has of the event.
abbrev pub IsFair : Request → CreateOrder → ℕ → ℕ → ℕ → Db → Order → Type 0
IsFair r dto count price limit db' o =
    (o.ticket_count ≡ count)
    × (o.total_amount ≡ price * count)
    × (o.user_id ≡ r.user)
    × (o.status ≡ OrderStatus.pending_payment)
    × (sum_where (is_active_order r.user dto.kuji_event_id) tickets_of db'.orders ≤ limit)

sum_placed :
    (r : Request) (kuji count price : ℕ) (snapshot : String) (orders : List Order)
    → sum_where
        (is_active_order r.user kuji)
        tickets_of
        (orders ++ new_order r kuji count price snapshot ∷ [])
      ≡ sum_where (is_active_order r.user kuji) tickets_of orders + count
sum_placed r kuji count price snapshot orders = ground (
  arith,
  sum_where-append (is_active_order r.user kuji) tickets_of orders
      (new_order r kuji count price snapshot ∷ []),
)

Placed-IsFair :
    (r : Request) (dto : CreateOrder) (count : ℕ) (claim : KujiEvent → Bool) (db db' : Db)
    (o : Order) (event : KujiEvent) (limit : ℕ)
    → Placed r dto count claim db.kuji_events db.orders db' o
    → kuji_of db dto.kuji_event_id ≡ some event
    → event.per_user_limit ≡ some limit
    → IsFair r dto count event.price_per_ticket limit db' o
Placed-IsFair r dto count claim db db' o event limit p e l =
    let same : p.event ≡ event = ground (arith, p.known, e) in
    let priced : o ≡ new_order r dto.kuji_event_id count event.price_per_ticket p.snapshot =
      rw same at p.priced in
    (
      ap (λ (x : Order). x.ticket_count) priced,
      ap (λ (x : Order). x.total_amount) priced,
      ap (λ (x : Order). x.user_id) priced,
      ap (λ (x : Order). x.status) priced,
      rw (p.added, priced)
          (omega (
            arith,
            sum_placed r dto.kuji_event_id count event.price_per_ticket p.snapshot db.orders,
            p.limited limit (ap (λ (x : KujiEvent). x.per_user_limit) same ∙ l),
          )),
    )

module _ (cipher : Cipher) (r : Request) (dto : CreateOrder) (db : Db) {o : Order} {db' : Db}
    {event : KujiEvent} {limit : ℕ} (known : kuji_of db dto.kuji_event_id ≡ some event)
    (limited : event.per_user_limit ≡ some limit) where
  -- For an event with a limit, an order of the first flow that goes through costs the event's
  -- price for each ticket, waits for its payment, and leaves its user within the limit.
  pub create_tx-IsFair :
      (count : ℕ)
      → create_tx cipher r dto count db ≡ ok (o, db')
      → IsFair r dto count event.price_per_ticket limit db' o
  create_tx-IsFair count h =
      Placed-IsFair r dto count (is_claimable dto.kuji_event_id count r.now) db db' o event limit
        (create_tx-Placed cipher r dto db count h).0 known limited

  -- For an event with a limit, an order of seats that goes through costs the event's price for
  -- each seat, waits for its payment, and leaves its user within the limit.
  pub create_with_tickets_tx-IsFair :
      create_with_tickets_tx cipher r dto db ≡ ok (o, db')
      → IsFair r dto (length dto.ticket_ids) event.price_per_ticket limit db' o
  create_with_tickets_tx-IsFair h =
      Placed-IsFair r dto (length dto.ticket_ids)
        (has_room dto.kuji_event_id (length dto.ticket_ids)) db db' o event limit
        (create_with_tickets_tx-Placed cipher r dto db h).0 known limited
