-- ===== src/Stock/Gate.antt =====
-- What the gate promises: it is exact while the counter is, and it never stops a sale when Redis is
-- down.
use lucky_draw.Common.{
  ℕ, ◌-◌, ◌≤◌, ◌<◌, ◌≡◌, ◌≢◌, ◌⊎◌, ◌&&◌, Bool-cases, ltb→lt, not-ltb→le, true, false, Option, none,
  some, arith, ltb, ◌==◌, find, Option-cases, inl, inr,
}
use lucky_draw.Model.{Db, KujiEvent}
use lucky_draw.Stock.{Counters, GateResult, Traffic, reserve, release}

abbrev pub event_of : Db → ℕ → Option KujiEvent
event_of db kuji = find (λ (e : KujiEvent). e.id == kuji) db.kuji_events

-- Redis answers, and nobody else touches the counters.
abbrev pub quiet : Traffic
quiet = record {
  first_answers = true;
  set_answers = true;
  second_answers = true;
  before_set = λ c. c;
  before_second = λ c. c;
}

-- The counter of the event, where there is one, shows what the database has left.
abbrev pub IsExact : KujiEvent → Option ℕ → Type 0
IsExact ev none = Unit
IsExact ev (some n) = n ≡ ev.total_tickets - ev.sold_tickets

-- What the gate says and leaves, with `left` tickets in the database.
abbrev pub Answers : (kuji count left : ℕ) → GateResult × Counters → Type 0
Answers kuji count left (result, c) =
    ((count ≤ left)
      × (result ≡ GateResult.gated (left - count))
      × (c kuji ≡ some (left - count))
      × (release true kuji count c kuji ≡ some left))
    ⊎ ((left < count) × (result ≡ GateResult.out_of_stock) × (c kuji ≡ some left))

module _ (db : Db) (kuji count : ℕ) (c : Counters) {ev : KujiEvent}
    (known : event_of db kuji ≡ some ev) where
  enough :
      IsExact ev (c kuji)
      → count ≤ ev.total_tickets - ev.sold_tickets
      → let (result, c') = reserve db quiet kuji count c in
        let left = ev.total_tickets - ev.sold_tickets in
        (result ≡ GateResult.gated (left - count))
        × (c' kuji ≡ some (left - count))
        × (release true kuji count c' kuji ≡ some left)
  unfolding reserve release
  enough exact fits = elim (Option-cases (c kuji)) [
    | inl absent ↦ ground arith
    | inr (n, present) ↦ ground arith
  ]

  too_few :
      IsExact ev (c kuji)
      → ev.total_tickets - ev.sold_tickets < count
      → let (result, c') = reserve db quiet kuji count c in
        let left = ev.total_tickets - ev.sold_tickets in
        (result ≡ GateResult.out_of_stock) × (c' kuji ≡ some left)
  unfolding reserve release
  too_few exact over = elim (Option-cases (c kuji)) [
    | inl absent ↦ ground arith
    | inr (n, present) ↦ ground arith
  ]

  -- Undisturbed and with an exact counter (or none) the gate lets a buyer through exactly if the
  -- database has the tickets; it then has taken them off the counter, and a release puts the counter
  -- back to what the database has left.
  pub reserve-Answers :
      IsExact ev (c kuji)
      → Answers kuji count (ev.total_tickets - ev.sold_tickets) (reserve db quiet kuji count c)
  reserve-Answers exact = elim (Bool-cases (ltb (ev.total_tickets - ev.sold_tickets) count)) [
    | inl over ↦
        (let (refused, kept) = too_few exact (ltb→lt _ _ over) in
          inr (ltb→lt _ _ over, refused, kept))
    | inr fits ↦
        (let (passed, taken, back) = enough exact (not-ltb→le _ _ fits) in
          inl (not-ltb→le _ _ fits, passed, taken, back))
  ]

-- For an event without a key, one of the three calls to Redis that fails lets the buyer through to
-- the database, whatever other clients do.
pub reserve_down :
    (db : Db) (traffic : Traffic) (kuji count : ℕ) (c : Counters)
    → traffic.first_answers && (traffic.set_answers && traffic.second_answers) ≡ false
    → c kuji ≡ none
    → event_of db kuji ≢ none
    → (reserve db traffic kuji count c).0 ≡ GateResult.skipped
unfolding reserve
reserve_down db traffic kuji count c down absent known = elim (Option-cases (event_of db kuji)) [
  | inl e ↦ absurd (known e)
  | inr (ev, e) ↦ ground arith
]
