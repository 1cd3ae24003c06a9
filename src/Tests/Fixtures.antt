-- ===== src/Tests/Fixtures.antt =====
-- A small shop: one event of three seats, with two tiers and a last prize.
use lucky_draw.Common.{ℕ, Bool, true, false, ◌+◌, none, some, List, [], ◌∷◌}
use lucky_draw.Model.{
  Db, KujiEvent, KujiStatus, PrizeTier, Inventory, Ticket, TicketStatus, ShippingAddress, Result,
  ok, err,
}
use lucky_draw.Cipher.{Cipher}
use lucky_draw.Order.Shipping.{CreateOrder}
use lucky_draw.Order.Create.{Request}

abbrev pub event : KujiEvent
event = record {
  id = 1;
  title = "spring";
  price_per_ticket = 700;
  total_tickets = 3;
  sold_tickets = 0;
  per_user_limit = some 5;
  sale_start_at = 0;
  sale_end_at = 1000;
  status = KujiStatus.on_sale;
}

abbrev pub tier : ℕ → Bool → ℕ → PrizeTier
tier id last quantity = record {
  id = id;
  kuji_event_id = 1;
  rank = "A";
  name = "prize";
  is_last_prize = last;
  total_quantity = quantity;
  animation_preset = none;
}

abbrev pub stock_of : ℕ → ℕ → ℕ → Inventory
stock_of id tier n = record { id = id; prize_tier_id = tier; remaining_quantity = n; version = 0 }

abbrev pub seat : ℕ → ℕ → Ticket
seat position tier = record {
  id = 100 + position;
  kuji_event_id = 1;
  position = position;
  prize_tier_id = tier;
  prize_item_id = none;
  status = TicketStatus.available;
  reserved_by_user_id = none;
  reserved_at = none;
  reserve_expires_at = none;
  order_id = none;
}

abbrev pub empty_shop : Db
empty_shop = record {
  kuji_events = event ∷ [];
  prize_tiers = tier 10 false 2 ∷ tier 11 false 1 ∷ tier 12 true 1 ∷ [];
  prize_items = record { id = 20; prize_tier_id = 10 } ∷ [];
  inventories = stock_of 30 10 2 ∷ stock_of 31 11 1 ∷ stock_of 32 12 1 ∷ [];
  tickets = [];
  products = [];
  addresses = [];
  orders = [];
  order_items = [];
  payments = [];
  draw_results = [];
  shipments = [];
  pickups = [];
  notifications = [];
}

abbrev pub shop : Db
shop = record empty_shop { tickets = seat 1 10 ∷ seat 2 11 ∷ seat 3 10 ∷ [] }

abbrev pub home : ShippingAddress
home = record {
  recipient = "Kim";
  phone = "010";
  postal_code = "04524";
  address_line1 = "Seoul";
  address_line2 = none;
}

-- A cipher that hides nothing, and knows one address.
abbrev pub plain : Cipher
plain = record {
  encrypt = λ t col s. s;
  decrypt = λ t col s. some s;
  encrypt_json = λ a at. a.recipient;
  decrypt_json = λ s. some (some home);
}

abbrev pub asked : List ℕ → CreateOrder
asked ids = record {
  kuji_event_id = 1;
  ticket_count = some 2;
  ticket_ids = ids;
  address_id = none;
  shipping_address = some home;
  save_address = false;
}

abbrev pub request : Request
request = record { user = 7; now = 20; key = 1000; fresh_order = 500; fresh_address = 600 }

abbrev pub state_of : {A : Type 0} → Result (A × Db) → Db
state_of (ok (a, db)) = db
state_of (err e) = empty_shop
