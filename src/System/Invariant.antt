-- ===== src/System/Invariant.antt =====
-- The books stay in order along every run of the services.
use lucky_draw.Model.{Db}
use lucky_draw.System.Booked.{IsBooked, untouched-IsBooked}
use lucky_draw.System.Draws.{execute-IsBooked}
use lucky_draw.System.Payments.{
  create_tx-IsBooked, create_with_tickets_tx-IsBooked, sales-IsBooked, cancel_tx-IsBooked,
  fail_order-IsBooked, confirm_tx-IsBooked, webhook_tx-IsBooked, confirm_deposit-IsBooked,
  refund_tx-IsBooked,
}
use lucky_draw.System.Seats.{
  reserve-IsUntouched, release_mine-IsUntouched, release_expired-IsUntouched,
  seed_for_kuji-IsUntouched, reshuffle_for_kuji-IsUntouched, update-IsUntouched,
}
use lucky_draw.System.Operators.{
  select_targets-IsUntouched, complete_pickup-IsBooked, update_order_shipment-IsUntouched,
}
use lucky_draw.System.Steps.{Step, Reach}

mutual
  Step-IsBooked : (db db' : Db) → Step db db' → IsBooked db → IsBooked db'
  Step-IsBooked db db' (Step.order_tickets cipher r dto count new h) booked =
      create_tx-IsBooked cipher r dto db new count h booked
  Step-IsBooked db db' (Step.order_seats cipher r dto new h) booked =
      create_with_tickets_tx-IsBooked cipher r dto db new h booked
  Step-IsBooked db db' (Step.order_products cipher r dto new h) booked =
      sales-IsBooked cipher r dto db new h booked
  Step-IsBooked db db' (Step.cancel now user id h) booked =
      cancel_tx-IsBooked now user id db h booked
  Step-IsBooked db db' (Step.confirm provider fresh user external order {p = p} h) booked =
      confirm_tx-IsBooked provider fresh user external order db db' p h booked
  Step-IsBooked db db' (Step.report_paid provider fresh now event {p = p} h) booked =
      webhook_tx-IsBooked provider fresh now event db db' p h booked
  Step-IsBooked db db' (Step.report_failed order) booked = fail_order-IsBooked order db booked
  Step-IsBooked db db' (Step.deposit now admin order depositor {p = p} h) booked =
      confirm_deposit-IsBooked admin order now depositor db db' p h booked
  Step-IsBooked db db' (Step.refund admin order reason at shipment {u = u} h) booked =
      refund_tx-IsBooked admin order reason at shipment db db' {u = u} h booked
  Step-IsBooked db db' (Step.draw cipher now fresh draw_random others user order {s = s} rely h)
        booked =
      execute-IsBooked cipher now fresh draw_random others
        (λ n x. Reach-IsBooked_lem x (others n x) (rely n x)) user order db db' s h booked
  Step-IsBooked db db' (Step.hold kuji positions user now h) booked =
      untouched-IsBooked db db' (reserve-IsUntouched kuji positions user now db h) booked
  Step-IsBooked db db' (Step.let_go kuji user h) booked =
      untouched-IsBooked db db' (release_mine-IsUntouched kuji user db h) booked
  Step-IsBooked db db' (Step.clean_up now h) booked =
      untouched-IsBooked db db' (release_expired-IsUntouched now db h) booked
  Step-IsBooked db db' (Step.deal fresh random kuji h) booked =
      untouched-IsBooked db db' (seed_for_kuji-IsUntouched fresh random kuji db h) booked
  Step-IsBooked db db' (Step.deal_again fresh random kuji h) booked =
      untouched-IsBooked db db' (reshuffle_for_kuji-IsUntouched fresh random kuji db h) booked
  Step-IsBooked db db' (Step.ship now id dto h) booked =
      untouched-IsBooked db db' (update-IsUntouched now id dto db h) booked
  Step-IsBooked db db' (Step.serve_preorders product raw h) booked =
      untouched-IsBooked db db' (select_targets-IsUntouched product raw db h) booked
  Step-IsBooked db db' (Step.pick_up now admin location order h) booked =
      complete_pickup-IsBooked now admin location order db h booked
  Step-IsBooked db db' (Step.ship_order now order dto h) booked =
      untouched-IsBooked db db' (update_order_shipment-IsUntouched now order dto db h) booked

  Reach-IsBooked_lem : (db db' : Db) → Reach db db' → IsBooked db → IsBooked db'
  Reach-IsBooked_lem db db' Reach.start booked = booked
  Reach-IsBooked_lem db db' (Reach.next {mid = mid} run last) booked =
      Step-IsBooked mid db' last (Reach-IsBooked_lem db mid run booked)

-- If the books of the events are in order and no two orders have the same identifier, this is so in
-- every state that the services reach, whatever orders are placed, cancelled, paid, failed, refunded
-- and drawn, in whatever sequence, and whatever other transactions commit during a draw: every event
-- has sold exactly the tickets of its orders that are not cancelled, and no more than it has.
pub Reach-IsBooked : (db db' : Db) → Reach db db' → IsBooked db → IsBooked db'
Reach-IsBooked db db' run booked = Reach-IsBooked_lem db db' run booked
