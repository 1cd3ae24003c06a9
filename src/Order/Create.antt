-- ===== src/Order/Create.antt =====
-- The transactions that place an order (apps/backend/src/order/order.service.ts:
-- createTransactional, createWithTicketsTransactional).
pub mod Steps
pub mod Limits
use lucky_draw.Common.{
  ℕ, ◌+◌, ◌*◌, Bool, not, ◌&&◌, ◌||◌, String, Option, none, some, List, [], ◌∷◌, ◌++◌, ltb, leb,
  ◌==◌, ◌=?◌, is_none, before?, if◌then◌else◌, find, select, count_where, sum_where, update_where,
  contains, length,
}
use lucky_draw.Model.{
  Db, KujiEvent, Ticket, Order, ShippingAddress, OrderStatus, DeliveryMethod, is_on_sale, is_active,
  is_reserved, Error, Result, ok, err, bad_request, conflict, not_found, forbidden,
  unique_violation, kuji_not_found, kuji_not_on_sale, sale_window_closed, out_of_stock,
  per_user_limit_exceeded, seats_missing, seat_of_other_kuji, seat_not_reserved,
  reservation_expired, seat_already_ordered,
}
use lucky_draw.Tx.{Tx, pure, throw, gets, or_throw, modify, throw_if, lift, ◌>>=◌, ◌>>◌}
use lucky_draw.Cipher.{Cipher}
use lucky_draw.Order.Shipping.{CreateOrder, resolve_shipping}

abbrev pub kuji_of : Db → ℕ → Option KujiEvent
kuji_of db kuji = find (λ (e : KujiEvent). e.id == kuji) db.kuji_events

abbrev pub is_kuji : ℕ → KujiEvent → Bool
is_kuji kuji e = e.id == kuji

-- The condition of the `UPDATE "KujiEvent"` of the first flow.
abbrev pub is_claimable : ℕ → ℕ → ℕ → KujiEvent → Bool
is_claimable kuji count now e =
    e.id == kuji
    && is_on_sale e.status
    && leb e.sale_start_at now
    && leb now e.sale_end_at
    && leb (e.sold_tickets + count) e.total_tickets

-- The condition of the `UPDATE "KujiEvent"` of the flow with tickets.
abbrev pub has_room : ℕ → ℕ → KujiEvent → Bool
has_room kuji count e = e.id == kuji && leb (e.sold_tickets + count) e.total_tickets

abbrev pub sell : ℕ → KujiEvent → KujiEvent
sell count e = record e { sold_tickets = e.sold_tickets + count }

-- `$executeRaw` of such an update: the number of rows that it changed.
update_kuji : (KujiEvent → Bool) → (KujiEvent → KujiEvent) → Tx ℕ
update_kuji p f db =
    ok (count_where p db.kuji_events, record db { kuji_events = update_where p f db.kuji_events })

-- Which of the conditions failed.
diagnose : ℕ → Option KujiEvent → Error
diagnose now none = not_found kuji_not_found
diagnose now (some ev) =
    if not (is_on_sale ev.status)
    then bad_request (kuji_not_on_sale ev.status)
    else if ltb now ev.sale_start_at || ltb ev.sale_end_at now
    then bad_request sale_window_closed
    else conflict out_of_stock

-- An order of this user for this event that is not cancelled, failed or refunded.
abbrev pub is_active_order : ℕ → ℕ → Order → Bool
is_active_order user kuji o = o.user_id == user && o.kuji_event_id =? kuji && is_active o.status

abbrev pub tickets_of : Order → ℕ
tickets_of o = o.ticket_count

check_limit : ℕ → ℕ → ℕ → Option ℕ → Tx (Unit {0})
check_limit user kuji count none = pure tt
check_limit user kuji count (some limit) = do
  already ← gets (λ db. sum_where (is_active_order user kuji) tickets_of db.orders)
  throw_if (ltb limit (already + count)) (bad_request per_user_limit_exceeded)

-- `order.create`; the column `idempotencyKey` is unique.
unfoldable pub insert_order : Order → Tx Order
insert_order o = do
  same ← gets (λ db. count_where (λ (x : Order). x.idempotency_key == o.idempotency_key) db.orders)
  throw_if (ltb 0 same) unique_violation
  modify (λ db. record db { orders = db.orders ++ o ∷ [] })
  pure o

-- What a request brings along: who asks, when, with which key, and the identifiers that the database
-- gives to new rows.
pub record Request : Type 0 where
  pub user : ℕ
  pub now : ℕ
  pub key : ℕ
  pub fresh_order : ℕ
  pub fresh_address : ℕ

abbrev pub new_order : Request → ℕ → ℕ → ℕ → String → Order
new_order r kuji count price snapshot = record {
  id = r.fresh_order;
  order_number = none;
  user_id = r.user;
  kuji_event_id = some kuji;
  ticket_count = count;
  unit_price = price;
  total_amount = price * count;
  status = OrderStatus.pending_payment;
  delivery_method = DeliveryMethod.shipping;
  idempotency_key = r.key;
  shipping_snapshot = some snapshot;
  created_at = r.now;
  paid_at = none;
  drawn_at = none;
  cancelled_at = none;
  completed_at = none;
}

module _ (cipher : Cipher) (r : Request) (dto : CreateOrder) where
  -- The steps behind the address: claim the tickets, check the user's limit, insert the order.
  claim_and_insert : ℕ → ShippingAddress → Tx Order
  unfolding update_kuji diagnose check_limit insert_order
  claim_and_insert count shipping = do
    updated ← update_kuji (is_claimable dto.kuji_event_id count r.now) (sell count)
    found ← gets (λ db. kuji_of db dto.kuji_event_id)
    throw_if (updated == 0) (diagnose r.now found)
    event ← or_throw found (not_found kuji_not_found)
    check_limit r.user dto.kuji_event_id count event.per_user_limit
    insert_order (
        new_order r dto.kuji_event_id count event.price_per_ticket
          (cipher.encrypt_json shipping r.now))

  -- The transaction of the first flow: the draw decides later on the prizes.
  unfoldable pub create_tx : ℕ → Tx Order
  unfolding claim_and_insert
  create_tx count = do
    shipping ← resolve_shipping cipher r.fresh_address r.user r.now dto
    claim_and_insert count shipping

  -- The body of the loop over the locked tickets.
  abbrev pub check_ticket : Ticket → Result (Unit {0})
  check_ticket t =
      if not (t.kuji_event_id == dto.kuji_event_id)
      then err (bad_request seat_of_other_kuji)
      else if not (is_reserved t.status)
      then err (conflict (seat_not_reserved t.position))
      else if not (t.reserved_by_user_id =? r.user)
      then err forbidden
      else if is_none t.reserve_expires_at || before? t.reserve_expires_at r.now
      then err (conflict reservation_expired)
      else if not (is_none t.order_id)
      then err (conflict seat_already_ordered)
      else ok tt

  unfoldable pub check_tickets : List Ticket → Result (Unit {0})
  check_tickets [] = ok tt
  check_tickets (t ∷ ts) =
      let rest = check_tickets ts in elim (check_ticket t) [ err e ↦ err e | ok _ ↦ rest ]

  check_sale : KujiEvent → Result (Unit {0})
  check_sale ev =
      if not (is_on_sale ev.status)
      then err (bad_request (kuji_not_on_sale ev.status))
      else if ltb r.now ev.sale_start_at || ltb ev.sale_end_at r.now
      then err (bad_request sale_window_closed)
      else ok tt

  abbrev pub is_wanted : Ticket → Bool
  is_wanted t = contains dto.ticket_ids t.id

  lock_tickets : Tx (Unit {0})
  unfolding check_tickets
  lock_tickets = do
    tickets ← gets (λ db. select is_wanted db.tickets)
    throw_if (not (length tickets == length dto.ticket_ids)) (not_found seats_missing)
    lift (check_tickets tickets)

  abbrev pub bind : ℕ → Ticket → Ticket
  bind order t = record t { order_id = some order }

  -- The steps behind the address in the flow with tickets.
  bind_and_insert : ShippingAddress → Tx Order
  unfolding lock_tickets check_sale update_kuji check_limit insert_order
  bind_and_insert shipping = do
    lock_tickets
    found ← gets (λ db. kuji_of db dto.kuji_event_id)
    event ← or_throw found (not_found kuji_not_found)
    lift (check_sale event)
    let count = length dto.ticket_ids
    check_limit r.user dto.kuji_event_id count event.per_user_limit
    updated ← update_kuji (has_room dto.kuji_event_id count) (sell count)
    throw_if (updated == 0) (conflict out_of_stock)
    order ← insert_order (
        new_order r dto.kuji_event_id count event.price_per_ticket
          (cipher.encrypt_json shipping r.now))
    modify (λ db. record db { tickets = update_where is_wanted (bind order.id) db.tickets })
    pure order

  -- The transaction of the flow with tickets: the seats that the user holds are bound to the order.
  unfoldable pub create_with_tickets_tx : Tx Order
  unfolding bind_and_insert
  create_with_tickets_tx = do
    shipping ← resolve_shipping cipher r.fresh_address r.user r.now dto
    bind_and_insert shipping
