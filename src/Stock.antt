-- ===== src/Stock.antt =====
-- The counter in Redis that turns buyers away before the database is asked
-- (apps/backend/src/stock/stock.service.ts). A call of Redis that does not answer is taken to have had
-- no effect there.
pub mod Gate
use lucky_draw.Common.{
  ℕ, ◌+◌, ◌-◌, Bool, true, false, Option, none, some, ltb, ◌==◌, if◌then◌else◌, find, max,
}
use lucky_draw.Model.{Db, KujiEvent}

-- The values of the keys `kuji:stock:{id}`, by the event's identifier.
abbrev pub Counters : Type 0
Counters = ℕ → Option ℕ

abbrev pub put : Counters → ℕ → ℕ → Counters
put c kuji n k = if k == kuji then some n else c k

-- What RESERVE_SCRIPT returns: the tickets left, -1 (not enough), or -2 (no key).
pub data ScriptResult : Type 0 where
  left : ℕ → ScriptResult
  short missing : ScriptResult

pub data GateResult : Type 0 where
  gated : ℕ → GateResult
  skipped out_of_stock not_found : GateResult

run_script : ℕ → ℕ → Option ℕ → Counters → ScriptResult × Counters
run_script kuji need none c = (ScriptResult.missing, c)
run_script kuji need (some cur) c =
    if ltb cur need
    then (ScriptResult.short, c)
    else (ScriptResult.left (cur - need), put c kuji (cur - need))

reserve_script : ℕ → ℕ → Counters → ScriptResult × Counters
unfolding run_script
reserve_script kuji need c = run_script kuji need (c kuji) c

-- `SET key value NX`
set_nx : ℕ → ℕ → Option ℕ → Counters → Counters
set_nx kuji n none c = put c kuji n
set_nx kuji n (some _) c = c

-- Which of the three calls to Redis answer, and what other clients do to the counters before the
-- second and the third of them.
pub record Traffic : Type 0 where
  pub first_answers : Bool
  pub set_answers : Bool
  pub second_answers : Bool
  pub before_set : Counters → Counters
  pub before_second : Counters → Counters

abbrev gate_of : ScriptResult → GateResult
gate_of (ScriptResult.left n) = GateResult.gated n
gate_of ScriptResult.short = GateResult.out_of_stock
gate_of ScriptResult.missing = GateResult.skipped

-- The second run of the script, after the key was set.
retry : Traffic → ℕ → ℕ → Counters → GateResult × Counters
unfolding reserve_script
retry traffic kuji count c =
    if traffic.second_answers
    then (let (result, c') = reserve_script kuji count c in (gate_of result, c'))
    else (GateResult.skipped, c)

-- The lazy initialisation of the key from the database.
initialise : Db → Traffic → ℕ → ℕ → Counters → GateResult × Counters
unfolding retry set_nx
initialise db traffic kuji count c = elim (find (λ (e : KujiEvent). e.id == kuji) db.kuji_events) [
  | none ↦ (GateResult.not_found, c)
  | some ev ↦
      if traffic.set_answers
      then (let c₁ = traffic.before_set c in
          let c₂ = set_nx kuji (ev.total_tickets - ev.sold_tickets) (c₁ kuji) c₁ in
          retry traffic kuji count (traffic.before_second c₂))
      else (GateResult.skipped, c)
]

after_first : Db → Traffic → ℕ → ℕ → ScriptResult × Counters → GateResult × Counters
unfolding initialise
after_first db traffic kuji count (ScriptResult.left n, c) = (GateResult.gated n, c)
after_first db traffic kuji count (ScriptResult.short, c) = (GateResult.out_of_stock, c)
after_first db traffic kuji count (ScriptResult.missing, c) = initialise db traffic kuji count c

-- `Math.max(total - sold, 0)` is the subtraction on numbers that stops at 0. Any error of Redis is
-- caught, and lets the buyer through to the database.
unfoldable pub reserve : Db → Traffic → ℕ → ℕ → Counters → GateResult × Counters
unfolding after_first reserve_script
reserve db traffic kuji count c =
    if traffic.first_answers
    then after_first db traffic kuji count (reserve_script kuji count c)
    else (GateResult.skipped, c)

abbrev value_of : Option ℕ → ℕ
value_of none = 0
value_of (some n) = n

-- `INCRBY`, which takes a missing key for 0; an error of Redis is caught.
unfoldable pub release : Bool → ℕ → ℕ → Counters → Counters
release answers kuji count c = if answers then put c kuji (value_of (c kuji) + count) else c
