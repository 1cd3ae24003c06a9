-- ===== src/RateLimit.antt =====
-- The limit on the rate of requests (apps/backend/src/rate-limit/rate-limit.guard.ts: canActivate).
-- A number stands for what the text of a key says before the bucket: the prefix of the options, the
-- address and the field of the body. A call of Redis that does not answer has no effect.
pub mod Window
use lucky_draw.Common.{
  ℕ, ◌+◌, ◌-◌, ◌/◌, Bool, true, false, not, ◌&&◌, Option, none, some, ltb, ◌==◌, if◌then◌else◌,
}

-- `RateLimitOptions`; the window is in seconds.
pub record Options : Type 0 where
  pub limit : ℕ
  pub window : ℕ

-- A key in Redis: its number, and the second at which it is gone, if it has one.
pub record Counter : Type 0 where
  pub count : ℕ
  pub expires_at : Option ℕ

-- The keys by what is limited (options' key, address, field) and by the bucket.
abbrev pub Counters : Type 0
Counters = ℕ → ℕ → Option Counter

-- A request, and which of the calls to Redis answer.
pub record Call : Type 0 where
  pub at : ℕ
  pub incr_answers : Bool
  pub expire_answers : Bool
  pub ttl_answers : Bool

pub data Verdict : Type 0 where
  passed : Verdict
  -- the status 429, with `Retry-After`
  too_many : ℕ → Verdict

abbrev pub is_over : ℕ → Option ℕ → Bool
is_over now none = false
is_over now (some t) = not (ltb now t)

-- `INCR`: a key that is missing or over starts at 1, without a time to live.
abbrev pub incremented : ℕ → Option Counter → Counter
incremented now none = record { count = 1; expires_at = none }
incremented now (some c) =
    if is_over now c.expires_at
    then record { count = 1; expires_at = none }
    else record c { count = c.count + 1 }

-- `ttl > 0 ? ttl : windowSec`
abbrev pub retry_after : ℕ → ℕ → Option ℕ → ℕ
retry_after now window none = window
retry_after now window (some t) = if ltb now t then t - now else window

-- `if (count === 1) expire`, and the limit; an error of Redis is caught, and the request passes.
abbrev pub after_incr : Options → Call → Counter → Verdict × Option Counter
after_incr o call c =
    if c.count == 1 && not call.expire_answers
    then (Verdict.passed, some c)
    else (let kept : Counter =
          (if c.count == 1 then record c { expires_at = some (call.at + o.window) } else c) in
        if ltb o.limit kept.count && call.ttl_answers
        then (Verdict.too_many (retry_after call.at o.window kept.expires_at), some kept)
        else (Verdict.passed, some kept))

-- One key.
unfoldable pub check_key : Options → Call → Option Counter → Verdict × Option Counter
check_key o call c =
    if not call.incr_answers then (Verdict.passed, c) else after_incr o call (incremented call.at c)

abbrev pub set_counter : ℕ → ℕ → Option Counter → Counters → Counters
set_counter key bucket c cs k b = if (k == key) && (b == bucket) then c else cs k b

unfoldable pub can_activate : Option Options → ℕ → Call → Counters → Verdict × Counters
unfolding check_key
can_activate none key call cs = (Verdict.passed, cs)
can_activate (some o) key call cs =
    let bucket = call.at / o.window in
    let checked = check_key o call (cs key bucket) in
    (checked.0, set_counter key bucket checked.1 cs)
