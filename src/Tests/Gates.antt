-- ===== src/Tests/Gates.antt =====
-- The gate in Redis, and shipments.
use lucky_draw.Common.{◌≡◌, ◌⊎◌, refl, false, none, some, [], ◌∷◌, arith}
use lucky_draw.Model.{Db, Shipment, ShipmentStatus}
use lucky_draw.Stock.{Counters, reserve}
use lucky_draw.Stock.Gate.{Answers, quiet, reserve-Answers}
use lucky_draw.Shipment.{UpdateShipment, advance, update, new_shipment, stamp}
use lucky_draw.Shipment.Graph.{Move, IsFrozen, is_final, update-Move}
use lucky_draw.Shipment.Stamps.{IsStamped, Keeps, advance-IsStamped}
use lucky_draw.Tests.Fixtures.{shop, event, home, state_of}

abbrev no_keys : Counters
no_keys k = none

reserve-Answers_example : Answers 1 2 3 (reserve shop quiet 1 2 no_keys)
reserve-Answers_example = reserve-Answers shop 1 2 no_keys {ev = event} refl (ground arith)

abbrev packed : Shipment
packed = new_shipment 900 500 ShipmentStatus.preparing home

abbrev ship : UpdateShipment
ship = record {
  status = some ShipmentStatus.shipped;
  carrier = none;
  tracking_number = some "77";
  hold_reason = none;
}

abbrev packed_shop : Db
packed_shop = record shop { shipments = packed ∷ [] }

abbrev shipped : Shipment
shipped = record (stamp 40 ShipmentStatus.shipped packed) { tracking_number = some "77" }

update-Move_example :
    ((ShipmentStatus.shipped ≡ ShipmentStatus.preparing)
      ⊎ Move ShipmentStatus.preparing ShipmentStatus.shipped)
    × ((is_final ShipmentStatus.preparing ≡ false) ⊎ IsFrozen packed shipped)
unfolding update
update-Move_example =
    update-Move 40 900 ship packed_shop {s = packed} {t = shipped}
      {db' = state_of (update 40 900 ship packed_shop)} refl refl

advance-IsStamped_example :
    IsStamped (stamp 40 ShipmentStatus.shipped packed)
    × Keeps packed (stamp 40 ShipmentStatus.shipped packed)
unfolding advance
advance-IsStamped_example =
    advance-IsStamped 40 (some ShipmentStatus.shipped) packed
      {t = stamp 40 ShipmentStatus.shipped packed} (ground arith) refl
