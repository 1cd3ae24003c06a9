-- ===== src/Order/Create/Steps.antt =====
-- What the transactions that place an order have checked and written when they succeed.
use lucky_draw.Common.{
  ℕ, ◌+◌, ◌≤◌, ◌≡◌, ◌≢◌, refl, Bool, Option, none, some, List, [], ◌∷◌, ◌++◌, arith, ◌==◌, find,
  count_where, sum_where, update_where, length, select, if◌then◌else◌, Option-cases, inl, inr,
  String,
}
use lucky_draw.Model.{Db, KujiEvent, Order, ShippingAddress, ok}
use lucky_draw.Tx.{>>=-eq-ok}
use lucky_draw.Cipher.{Cipher}
use lucky_draw.Order.Shipping.{CreateOrder, resolve_shipping}
use lucky_draw.Order.Shipping.Effect.{resolve_shipping-addresses}
use lucky_draw.Order.Create.{
  Request, is_kuji, kuji_of, claim_and_insert, bind_and_insert, is_claimable, has_room, sell,
  is_active_order, tickets_of, new_order, create_tx, create_with_tickets_tx, check_tickets,
  check_sale, is_wanted, bind,
}

abbrev pub has_key : ℕ → Order → Bool
has_key key o = o.idempotency_key == key

-- The facts that both flows share; `claim` is the condition of the update of the events.
pub record Placed (r : Request) (dto : CreateOrder) (count : ℕ) (claim : KujiEvent → Bool)
    (events : List KujiEvent) (orders : List Order) (db' : Db) (o : Order) : Type 0 where
  pub event : KujiEvent
  pub snapshot : String
  pub known : find (is_kuji dto.kuji_event_id) events ≡ some event
  pub priced : o ≡ new_order r dto.kuji_event_id count event.price_per_ticket snapshot
  pub limited :
      (limit : ℕ)
      → event.per_user_limit ≡ some limit
      → sum_where (is_active_order r.user dto.kuji_event_id) tickets_of orders + count ≤ limit
  pub claimed : count_where claim events ≢ 0
  pub sold : db'.kuji_events ≡ update_where claim (sell count) events
  pub unused : count_where (has_key r.key) orders ≡ 0
  pub added : db'.orders ≡ orders ++ o ∷ []

abbrev sold_event : (KujiEvent → Bool) → ℕ → Option KujiEvent → Option KujiEvent
sold_event p n none = none
sold_event p n (some e) = some (if p e then sell n e else e)

find-sell :
    (kuji n : ℕ) (p : KujiEvent → Bool) (es : List KujiEvent)
    → find (λ (e : KujiEvent). e.id == kuji) (update_where p (sell n) es)
      ≡ sold_event p n (find (λ (e : KujiEvent). e.id == kuji) es)
find-sell kuji n p [] = refl
find-sell kuji n p (e ∷ es) = ground (arith, find-sell kuji n p es)

module _ (cipher : Cipher) (r : Request) (dto : CreateOrder) (db : Db) {o : Order} {db' : Db} where
  claim-Placed :
      (count : ℕ) (shipping : ShippingAddress) (event : KujiEvent)
      → claim_and_insert cipher r dto count shipping db ≡ ok (o, db')
      → kuji_of db dto.kuji_event_id ≡ some event
      → Placed r dto count
          (is_claimable dto.kuji_event_id count r.now)
          db.kuji_events
          db.orders
          db'
          o
        × (db'.tickets ≡ db.tickets)
  unfolding claim_and_insert
  claim-Placed count shipping event h e =
      let known =
        find-sell dto.kuji_event_id count (is_claimable dto.kuji_event_id count r.now)
          db.kuji_events in
      (
        record {
          event = event;
          snapshot = cipher.encrypt_json shipping r.now;
          known = e;
          priced = ground arith;
          limited = λ limit l. ground arith;
          claimed = ground arith;
          sold = ground arith;
          unused = ground arith;
          added = ground arith;
        },
        ground arith,
      )

  bind-Placed :
      (shipping : ShippingAddress) (event : KujiEvent)
      → bind_and_insert cipher r dto shipping db ≡ ok (o, db')
      → kuji_of db dto.kuji_event_id ≡ some event
      → Placed r dto
          (length dto.ticket_ids)
          (has_room dto.kuji_event_id (length dto.ticket_ids))
          db.kuji_events
          db.orders
          db'
          o
        × (length (select (is_wanted cipher r dto) db.tickets) ≡ length dto.ticket_ids)
        × (check_tickets cipher r dto (select (is_wanted cipher r dto) db.tickets) ≡ ok tt)
        × (check_sale cipher r dto event ≡ ok tt)
        × (db'.tickets
            ≡ update_where (is_wanted cipher r dto) (bind cipher r dto r.fresh_order) db.tickets)
  unfolding bind_and_insert
  bind-Placed shipping event h e = (
    record {
      event = event;
      snapshot = cipher.encrypt_json shipping r.now;
      known = e;
      priced = ground arith;
      limited = λ limit l. ground arith;
      claimed = ground arith;
      sold = ground arith;
      unused = ground arith;
      added = ground arith;
    },
    ground arith,
    ground arith,
    ground arith,
    ground arith,
  )

  claim-known :
      (count : ℕ) (shipping : ShippingAddress)
      → claim_and_insert cipher r dto count shipping db ≡ ok (o, db')
      → (event : KujiEvent) × (kuji_of db dto.kuji_event_id ≡ some event)
  unfolding claim_and_insert
  claim-known count shipping h = elim (Option-cases (kuji_of db dto.kuji_event_id)) [
    | inl e ↦
        let known =
          find-sell dto.kuji_event_id count (is_claimable dto.kuji_event_id count r.now)
            db.kuji_events in
        absurd (ground arith)
    | inr known ↦ known
  ]

  bind-known :
      (shipping : ShippingAddress)
      → bind_and_insert cipher r dto shipping db ≡ ok (o, db')
      → (event : KujiEvent) × (kuji_of db dto.kuji_event_id ≡ some event)
  unfolding bind_and_insert
  bind-known shipping h = elim (Option-cases (kuji_of db dto.kuji_event_id)) [
    | inl e ↦ absurd (ground arith)
    | inr known ↦ known
  ]

-- The tickets that the flow with tickets has locked, checked and bound to the new order.
pub record Bound (cipher : Cipher) (r : Request) (dto : CreateOrder) (db db' : Db) : Type 0 where
  pub locked : length (select (is_wanted cipher r dto) db.tickets) ≡ length dto.ticket_ids
  pub checked : check_tickets cipher r dto (select (is_wanted cipher r dto) db.tickets) ≡ ok tt
  pub written :
      db'.tickets
      ≡ update_where (is_wanted cipher r dto) (bind cipher r dto r.fresh_order) db.tickets

module _ (cipher : Cipher) (r : Request) (dto : CreateOrder) (db : Db) {o : Order} {db' : Db} where
  pub create_tx-Placed :
      (count : ℕ)
      → create_tx cipher r dto count db ≡ ok (o, db')
      → Placed r dto count
          (is_claimable dto.kuji_event_id count r.now)
          db.kuji_events
          db.orders
          db'
          o
        × (db'.tickets ≡ db.tickets)
  unfolding create_tx
  create_tx-Placed count h =
      let (shipping, mid, first, rest) =
        >>=-eq-ok (resolve_shipping cipher r.fresh_address r.user r.now dto)
          (claim_and_insert cipher r dto count) db h in
      let (rows, same) =
        resolve_shipping-addresses cipher r.fresh_address r.user r.now dto db first in
      let run = rw same at rest in
      let (event, known) =
        claim-known cipher r dto (record db { addresses = rows }) count shipping run in
      claim-Placed cipher r dto (record db { addresses = rows }) count shipping event run known

  pub create_with_tickets_tx-Placed :
      create_with_tickets_tx cipher r dto db ≡ ok (o, db')
      → Placed r dto
          (length dto.ticket_ids)
          (has_room dto.kuji_event_id (length dto.ticket_ids))
          db.kuji_events
          db.orders
          db'
          o
        × Bound cipher r dto db db'
  unfolding create_with_tickets_tx
  create_with_tickets_tx-Placed h =
      let (shipping, mid, first, rest) =
        >>=-eq-ok (resolve_shipping cipher r.fresh_address r.user r.now dto)
          (bind_and_insert cipher r dto) db h in
      let (rows, same) =
        resolve_shipping-addresses cipher r.fresh_address r.user r.now dto db first in
      let run = rw same at rest in
      let (event, known) = bind-known cipher r dto (record db { addresses = rows }) shipping run in
      let (placed, locked, checked, sale, written) =
        bind-Placed cipher r dto (record db { addresses = rows }) shipping event run known in
      (placed, record { locked = locked; checked = checked; written = written })
