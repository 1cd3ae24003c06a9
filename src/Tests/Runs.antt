-- ===== src/Tests/Runs.antt =====
-- A run of the services: two tickets are ordered, paid and drawn.
use lucky_draw.Common.{refl, some, [], arith}
use lucky_draw.Model.{Db, ProviderName, PaymentMethod}
use lucky_draw.Order.Create.{create_tx}
use lucky_draw.Order.Shipping.{resolve_shipping}
use lucky_draw.Payment.{ConfirmResult}
use lucky_draw.Payment.Confirm.{confirm_tx}
use lucky_draw.Payment.Effects.{apply_paid_order_effects}
use lucky_draw.Draw.Execute.{execute}
use lucky_draw.System.Booked.{IsBooked}
use lucky_draw.System.Steps.{Step, Reach}
use lucky_draw.System.Invariant.{Reach-IsBooked}
use lucky_draw.Tests.Fixtures.{shop, asked, plain, request, state_of}

abbrev external : ConfirmResult
external = record {
  provider_tx_id = 77;
  amount = 1400;
  method = some PaymentMethod.card;
  paid_at = 50;
}

abbrev ordered : Db
ordered = state_of (create_tx plain request (asked []) 2 shop)

abbrev paid : Db
paid = state_of (confirm_tx ProviderName.toss 800 7 external 500 ordered)

abbrev drawn : Db
drawn = state_of (execute plain 60 900 (λ total attempt. 0) (λ n db. db) 7 500 paid)

shop-IsBooked : IsBooked shop
shop-IsBooked = ground arith

run : Reach shop drawn
unfolding create_tx confirm_tx apply_paid_order_effects execute resolve_shipping
run =
    Reach.next
      (Reach.next
        (Reach.next Reach.start
          (Step.order_tickets plain request (asked []) 2 {db = shop} {db' = ordered} refl refl))
        (Step.confirm ProviderName.toss 800 7 external 500 {db = ordered} {db' = paid} refl))
      (Step.draw plain 60 900 (λ total attempt. 0) (λ n db. db) 7 500 {db = paid} {db' = drawn}
        (λ n x. Reach.start) refl)

Reach-IsBooked_example : IsBooked drawn
Reach-IsBooked_example = Reach-IsBooked shop drawn run shop-IsBooked
