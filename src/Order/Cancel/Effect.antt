-- ===== src/Order/Cancel/Effect.antt =====
-- What a cancellation checks and writes, and what it leaves behind.
use lucky_draw.Common.{
  ℕ, ◌<◌, ◌≡◌, refl, ap, Bool, ◌&&◌, Option, none, some, List, [], ◌∷◌, arith, ◌==◌, ◌=?◌,
  count_where, select, update_where, Option-cases, inl, inr,
}
use lucky_draw.Model.{Db, KujiEvent, Order, Ticket, OrderStatus, Error, ok, err}
use lucky_draw.Tx.{Result-err}
use lucky_draw.Cipher.{Cipher}
use lucky_draw.Order.View.{order_of}
use lucky_draw.Order.Shipping.{CreateOrder}
use lucky_draw.Order.Create.{Request, create_with_tickets_tx, check_tickets, is_wanted}
use lucky_draw.Order.Create.Steps.{create_with_tickets_tx-Placed}
use lucky_draw.Order.Cancel.{cancel_tx, is_waiting_order, cancelled, unsell}

abbrev pub restored : Option ℕ → ℕ → List KujiEvent → List KujiEvent
restored none count es = es
restored (some kuji) count es = update_where (λ (e : KujiEvent). e.id == kuji) (unsell count) es

pub record Cancelled (now user id : ℕ) (db db' : Db) : Type 0 where
  pub order : Order
  pub known : order_of db id ≡ some order
  pub own : order.user_id ≡ user
  pub waiting : order.status ≡ OrderStatus.pending_payment
  pub written : db' ≡ record db {
    orders = update_where (is_waiting_order id) (cancelled now) db.orders;
    kuji_events = restored order.kuji_event_id order.ticket_count db.kuji_events;
  }

module _ (now user id : ℕ) (db : Db) {x : Option Order} {db' : Db} where
  with_order :
      (order : Order)
      → order_of db id ≡ some order
      → cancel_tx now user id db ≡ ok (x, db')
      → Cancelled now user id db db'
  unfolding cancel_tx
  with_order order e h = elim (Option-cases order.kuji_event_id) [
    | inl k ↦ record {
      order = order;
      known = e;
      own = ground arith;
      waiting = ground arith;
      written = ground arith;
    }
    | inr (kuji, k) ↦ record {
      order = order;
      known = e;
      own = ground arith;
      waiting = ground arith;
      written = ground arith;
    }
  ]

  pub cancel_tx-Cancelled : cancel_tx now user id db ≡ ok (x, db') → Cancelled now user id db db'
  unfolding cancel_tx
  cancel_tx-Cancelled h = elim (Option-cases (order_of db id)) [
    | inl e ↦ absurd (ground arith)
    | inr (order, e) ↦ with_order order e h
  ]

abbrev pub is_bound_to : ℕ → Ticket → Bool
is_bound_to order t = t.order_id =? order

module _ (cipher : Cipher) (r : Request) (dto : CreateOrder) (order : ℕ) where
  bound_refused :
      (ts : List Ticket)
      → check_tickets cipher r dto (select (is_wanted cipher r dto) ts) ≡ ok tt
      → count_where (λ t. is_wanted cipher r dto t && is_bound_to order t) ts ≡ 0
  unfolding check_tickets
  bound_refused [] h = refl
  bound_refused (t ∷ ts) h = ground (arith, bound_refused ts)

  -- A cancellation leaves the seats of the order bound to it: every later order for one of them is
  -- refused, whoever asks and whenever.
  pub cancel_tx-binds :
      (now user : ℕ) (db : Db) {x : Option Order} {db' : Db}
      → cancel_tx now user order db ≡ ok (x, db')
      → 0 < count_where (λ t. is_wanted cipher r dto t && is_bound_to order t) db.tickets
      → (e : Error) × (create_with_tickets_tx cipher r dto db' ≡ err e)
  cancel_tx-binds now user db {db' = db'} done bound =
      Result-err (create_with_tickets_tx cipher r dto db') λ (o, after) h.
        let same =
          ap (λ (d : Db). d.tickets) (cancel_tx-Cancelled now user order db done).written in
        let checked = (create_with_tickets_tx-Placed cipher r dto db' h).1.checked in
        omega (
          arith,
          bound_refused db'.tickets checked,
          ap (count_where (λ t. is_wanted cipher r dto t && is_bound_to order t)) same,
        )
