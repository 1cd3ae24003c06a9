-- ===== src/System/Booked.antt =====
-- The books of all events with the identifiers of the orders: what every operation keeps.
use lucky_draw.Common.{◌≡◌, Distinct}
use lucky_draw.Model.{Db}
use lucky_draw.Order.Sound.{IsSound}
use lucky_draw.Order.Sound.Cancel.{order_id}

-- The books are in order, and no two orders have the same identifier.
abbrev pub IsBooked : Db → Type 0
IsBooked db = IsSound db × Distinct order_id db.orders

abbrev pub IsUntouched : Db → Db → Type 0
IsUntouched db db' = (db'.orders ≡ db.orders) × (db'.kuji_events ≡ db.kuji_events)

pub untouched-IsBooked : (db db' : Db) → IsUntouched db db' → IsBooked db → IsBooked db'
untouched-IsBooked db db' (os, es) booked = rw (os, es) booked
