-- ===== src/Tests/Orders.antt =====
-- Orders in the small shop.
use lucky_draw.Common.{◌≡◌, refl, true, false, none, some, [], ◌∷◌, arith}
use lucky_draw.Model.{Db, Order, OrderStatus, DeliveryMethod, Error, Result, ok, err}
use lucky_draw.Ticket.Reserve.{reserve}
use lucky_draw.Stock.{Counters, Traffic}
use lucky_draw.Order.Shipping.{resolve_shipping}
use lucky_draw.Order.Create.{create_tx, create_with_tickets_tx, new_order}
use lucky_draw.Order.Create.Limits.{IsFair, create_tx-IsFair}
use lucky_draw.Order.Cancel.{cancel_tx}
use lucky_draw.Order.Cancel.Effect.{cancel_tx-binds}
use lucky_draw.Order.View.{serialize_order}
use lucky_draw.Stock
use lucky_draw.Order.Place.{Response, Surroundings, World, create, create_transactional}
use lucky_draw.Order.Place.Repeat.{create-create, create_transactional-create_transactional}
use lucky_draw.Order.Place.Balance.{create_transactional-error}
use lucky_draw.Stock.Gate.{quiet}
use lucky_draw.Tests.Fixtures.{shop, home, plain, asked, request, state_of}

abbrev ordered : Db
ordered = state_of (create_tx plain request (asked []) 2 shop)

abbrev held : Db
held = state_of (reserve 1 (1 ∷ 3 ∷ []) 7 10 shop)

abbrev seated : Db
seated = state_of (create_with_tickets_tx plain request (asked (101 ∷ 103 ∷ [])) held)

abbrev first_order : Order
first_order = new_order request 1 2 700 "Kim"

create_tx-IsFair_example : IsFair request (asked []) 2 700 5 ordered first_order
unfolding create_tx resolve_shipping
create_tx-IsFair_example =
    create_tx-IsFair plain request (asked []) shop {o = first_order} {db' = ordered} refl refl 2
      refl

abbrev cancelled_db : Db
cancelled_db = state_of (cancel_tx 30 7 500 seated)

-- The user of the cancelled order asks for one of its seats again.
cancel_tx-binds_example :
    (e : Error) × (create_with_tickets_tx plain
        (record request { key = 1001 })
        (asked (101 ∷ []))
        cancelled_db
      ≡ err e)
unfolding reserve create_with_tickets_tx resolve_shipping cancel_tx
cancel_tx-binds_example =
    cancel_tx-binds plain (record request { key = 1001 }) (asked (101 ∷ [])) 500 30 7 seated
      {db' = cancelled_db} refl (ground arith)

abbrev calm : Surroundings
calm = record { traffic = quiet; release_answers = true; others = λ db. db; cached_late = none }

abbrev counters : Counters
counters k = some 3

abbrev outcome_db : Result Response × Db × Counters → Db
outcome_db (r, db, c) = db

abbrev outcome_counters : Result Response × Db × Counters → Counters
outcome_counters (r, db, c) = c

abbrev placed : Result Response × Db × Counters
placed = create_transactional plain request (asked []) calm shop counters

abbrev too_late : Result Response × Db × Counters
too_late = create_transactional plain (record request { now = 2000 }) (asked []) calm shop counters

abbrev response : Response
response = record {
  status = 201;
  body = record {
    id = 500;
    order_number = none;
    kuji_event_id = some 1;
    ticket_count = 2;
    unit_price = 700;
    total_amount = 1400;
    status = OrderStatus.pending_payment;
    delivery_method = DeliveryMethod.shipping;
    order_items = [];
    pickup = none;
    shipping_snapshot = some home;
    created_at = 20;
    paid_at = none;
    drawn_at = none;
    cancelled_at = none;
  };
}

-- The second request wants seats, and comes with other counters.
create_transactional-create_transactional_example :
    create_transactional plain request (asked (102 ∷ [])) calm (outcome_db placed) (λ k. none)
    ≡ (ok (record response { status = 200 }), outcome_db placed, λ k. none)
unfolding create_transactional create_tx resolve_shipping serialize_order Stock.reserve
create_transactional-create_transactional_example =
    create_transactional-create_transactional plain request request (asked []) (asked (102 ∷ []))
      calm calm shop counters (λ k. none) {response = response} {db' = outcome_db placed}
      {c' = outcome_counters placed} refl refl refl

-- The sale is over: the transaction throws, and the counter is put back.
create_transactional-error_example : outcome_counters too_late 1 ≡ counters 1
unfolding create_transactional create_tx resolve_shipping serialize_order Stock.reserve
    Stock.release
create_transactional-error_example =
    create_transactional-error plain (record request { now = 2000 }) (asked []) calm shop counters 3
      1 {db' = outcome_db too_late} {c' = outcome_counters too_late} refl refl refl

abbrev world : World
world = record { db = shop; counters = counters; cache = λ u k. none; lock = λ u k. false }

abbrev later_world : World
later_world = (create plain request (asked []) calm world).1

create-create_example :
    (create plain (record request { now = 90 }) (asked (102 ∷ [])) calm later_world
      ≡ (ok response, later_world))
    × (later_world.lock 7 1000 ≡ false)
unfolding create create_transactional create_tx resolve_shipping serialize_order Stock.reserve
create-create_example =
    create-create plain request (record request { now = 90 }) (asked []) (asked (102 ∷ [])) calm
      calm world {response = response} {w' = later_world} refl refl refl refl
