-- ===== src/System/Steps.antt =====
-- The transactions of the services as steps between states of the database, and the states that
-- they reach. A step is a transaction that commits; one that throws leaves the state as it was. The
-- identifier of a new order is one that no order has yet. The draw of an order commits nothing until
-- its end, and any number of steps of others may lie before each attempt of its updates.
use lucky_draw.Common.{ℕ, ◌≡◌, false, String, Option, List, map, contains}
use lucky_draw.Model.{Db, Order, Payment, ProviderName, Shipment, Pickup, ok}
use lucky_draw.Cipher.{Cipher}
use lucky_draw.Order.Shipping.{CreateOrder}
use lucky_draw.Order.Create.{Request, create_tx, create_with_tickets_tx}
use lucky_draw.Order.Cancel.{cancel_tx}
use lucky_draw.Order.Sound.Cancel.{order_id}
use lucky_draw.Payment.{ConfirmResult, WebhookEvent}
use lucky_draw.Payment.Confirm.{confirm_tx}
use lucky_draw.Payment.Webhook.{webhook_tx, fail_order}
use lucky_draw.Payment.Deposit.{confirm_deposit}
use lucky_draw.Payment.Refund.{refund_tx}
use lucky_draw.Draw.Result.{Summary}
use lucky_draw.Draw.Execute.{execute}
use lucky_draw.Ticket.Reserve.{Reservation, reserve, release_mine, release_expired}
use lucky_draw.Ticket.Seed.{seed_for_kuji, reshuffle_for_kuji}
use lucky_draw.Shipment.{UpdateShipment, update}
use lucky_draw.AdminOrder.Preorders.{Plan, select_targets}
use lucky_draw.AdminOrder.Pickups.{complete_pickup}
use lucky_draw.AdminOrder.Shipments.{update_order_shipment}
use lucky_draw.SalesOrder.Write.{SalesRequest, CreateSalesOrder}
use lucky_draw.SalesOrder.Write

abbrev pub IsNewOrder : ℕ → Db → Type 0
IsNewOrder id db = contains (map order_id db.orders) id ≡ false

mutual
  pub data Step : Db → Db → Type 0 where
    order_tickets :
        (cipher : Cipher) (r : Request) (dto : CreateOrder) (count : ℕ) {o : Order} {db db' : Db}
        → IsNewOrder r.fresh_order db
        → create_tx cipher r dto count db ≡ ok (o, db')
        → Step db db'
    order_seats :
        (cipher : Cipher) (r : Request) (dto : CreateOrder) {o : Order} {db db' : Db}
        → IsNewOrder r.fresh_order db
        → create_with_tickets_tx cipher r dto db ≡ ok (o, db')
        → Step db db'
    order_products :
        (cipher : Cipher) (r : SalesRequest) (dto : CreateSalesOrder) {o : Order} {db db' : Db}
        → IsNewOrder r.fresh_order db
        → Write.create_tx cipher r dto db ≡ ok (o, db')
        → Step db db'
    cancel :
        (now user id : ℕ) {x : Option Order} {db db' : Db}
        → cancel_tx now user id db ≡ ok (x, db')
        → Step db db'
    confirm :
        (provider : ProviderName) (fresh user : ℕ) (external : ConfirmResult) (order : ℕ)
        {p : Payment} {db db' : Db}
        → confirm_tx provider fresh user external order db ≡ ok (p, db')
        → Step db db'
    report_paid :
        (provider : ProviderName) (fresh now : ℕ) (event : WebhookEvent) {p : Payment} {db db' : Db}
        → webhook_tx provider fresh now event db ≡ ok (p, db')
        → Step db db'
    report_failed : (order : ℕ) {db : Db} → Step db (fail_order order db)
    deposit :
        (now admin order : ℕ) (depositor : Option String) {p : Payment} {db db' : Db}
        → confirm_deposit now admin order depositor db ≡ ok (p, db')
        → Step db db'
    refund :
        (admin order : ℕ) (reason : String) (at : ℕ) (shipment : Option Shipment) {u : Unit {0}}
        {db db' : Db}
        → refund_tx admin order reason at shipment db ≡ ok (u, db')
        → Step db db'
    draw :
        (cipher : Cipher) (now fresh : ℕ) (draw_random : ℕ → ℕ → ℕ) (others : ℕ → Db → Db)
        (user order : ℕ) {s : Summary} {db db' : Db}
        → ((n : ℕ) (x : Db) → Reach x (others n x))
        → execute cipher now fresh draw_random others user order db ≡ ok (s, db')
        → Step db db'
    hold :
        (kuji : ℕ) (positions : List ℕ) (user now : ℕ) {r : Reservation} {db db' : Db}
        → reserve kuji positions user now db ≡ ok (r, db')
        → Step db db'
    let_go :
        (kuji user : ℕ) {n : ℕ} {db db' : Db}
        → release_mine kuji user db ≡ ok (n, db')
        → Step db db'
    clean_up : (now : ℕ) {n : ℕ} {db db' : Db} → release_expired now db ≡ ok (n, db') → Step db db'
    deal :
        (fresh random : ℕ → ℕ) (kuji : ℕ) {n : ℕ} {db db' : Db}
        → seed_for_kuji fresh random kuji db ≡ ok (n, db')
        → Step db db'
    deal_again :
        (fresh random : ℕ → ℕ) (kuji : ℕ) {n : ℕ} {db db' : Db}
        → reshuffle_for_kuji fresh random kuji db ≡ ok (n, db')
        → Step db db'
    ship :
        (now id : ℕ) (dto : UpdateShipment) {s : Shipment} {db db' : Db}
        → update now id dto db ≡ ok (s, db')
        → Step db db'
    serve_preorders :
        (product : ℕ) (raw : Option ℕ) {plan : Plan} {db db' : Db}
        → select_targets product raw db ≡ ok (plan, db')
        → Step db db'
    pick_up :
        (now admin : ℕ) (location : Option String) (order : ℕ) {p : Pickup} {db db' : Db}
        → complete_pickup now admin location order db ≡ ok (p, db')
        → Step db db'
    ship_order :
        (now order : ℕ) (dto : UpdateShipment) {s : Shipment} {db db' : Db}
        → update_order_shipment now order dto db ≡ ok (s, db')
        → Step db db'

  pub data Reach : Db → Db → Type 0 where
    start : {db : Db} → Reach db db
    next : {db mid db' : Db} → Reach db mid → Step mid db' → Reach db db'
