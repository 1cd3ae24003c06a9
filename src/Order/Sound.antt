-- ===== src/Order/Sound.antt =====
-- The books of an event: what it has sold is the sum of its orders that are not cancelled, and never
-- more than its tickets.
pub mod Create
pub mod Cancel
use lucky_draw.Common.{
  ℕ, ◌+◌, ◌≤◌, ◌≡◌, ◌≢◌, refl, true, false, Bool, not, ◌&&◌, some, List, [], ◌∷◌, ◌++◌, map, arith,
  ◌==◌, ◌=?◌, contains, count_where, sum_where, update_where, All, Distinct, sum_where-append,
  if◌then◌else◌,
}
use lucky_draw.Model.{Db, KujiEvent, Order, OrderStatus}

abbrev pub is_cancelled : OrderStatus → Bool
is_cancelled OrderStatus.cancelled = true
is_cancelled _ = false

-- An order that keeps its tickets of the event: any but a cancelled one.
abbrev pub is_counted : ℕ → Order → Bool
is_counted kuji o = o.kuji_event_id =? kuji && not (is_cancelled o.status)

abbrev pub quantity : Order → ℕ
quantity o = o.ticket_count

abbrev pub IsSoldExact : List Order → KujiEvent → Type 0
IsSoldExact orders e =
    (e.sold_tickets ≡ sum_where (is_counted e.id) quantity orders)
    × (e.sold_tickets ≤ e.total_tickets)

abbrev pub event_id : KujiEvent → ℕ
event_id e = e.id

abbrev pub IsSound : Db → Type 0
IsSound db = Distinct event_id db.kuji_events × All (IsSoldExact db.orders) db.kuji_events

-- An update that finds a row for this event has found the event's only row.
module _ (kuji : ℕ) (claim : KujiEvent → Bool)
    (of_kuji : (e : KujiEvent) → claim e ≡ true → e.id ≡ kuji) where
  none_elsewhere :
      (es : List KujiEvent)
      → contains (map event_id es) kuji ≡ false
      → (count_where claim es ≡ 0) × All (λ e. claim e ≡ (e.id == kuji)) es
  none_elsewhere [] h = (refl, tt)
  none_elsewhere (e ∷ es) h = ground (arith, of_kuji e, none_elsewhere es)

  pub only_row :
      (es : List KujiEvent)
      → Distinct event_id es
      → count_where claim es ≢ 0
      → All (λ e. claim e ≡ (e.id == kuji)) es
  only_row [] d h = tt
  only_row (e ∷ es) d h = ground (arith, of_kuji e, none_elsewhere es, only_row es d.1)
