-- ===== src/Tests/Limits.antt =====
-- A limit of two requests in a minute.
use lucky_draw.Common.{ℕ, ◌≡◌, ◌≤◌, ◌+◌, refl, true, false, none, some, List, [], ◌∷◌, arith}
use lucky_draw.RateLimit.{Options, Call, Counters, Verdict, can_activate}
use lucky_draw.RateLimit.Window.{passed, passed-le-limit, unanswered}

abbrev two_a_minute : Options
two_a_minute = record { limit = 2; window = 60 }

abbrev call_at : ℕ → Call
call_at t = record { at = t; incr_answers = true; expire_answers = true; ttl_answers = true }

abbrev unheard : Call
unheard = record { at = 150; incr_answers = false; expire_answers = true; ttl_answers = true }

abbrev no_counters : Counters
no_counters k b = none

abbrev minute : List Call
minute = call_at 120 ∷ call_at 130 ∷ unheard ∷ call_at 160 ∷ call_at 179 ∷ []

abbrev after_two : Counters
after_two =
    (can_activate (some two_a_minute) 5 (call_at 130)
      (can_activate (some two_a_minute) 5 (call_at 120) no_counters).1).1

two_and_one : passed two_a_minute 5 minute no_counters ≡ 3
unfolding passed
two_and_one = refl

-- The third waits until the key is gone, and the next minute starts anew.
third : (can_activate (some two_a_minute) 5 (call_at 160) after_two).0 ≡ Verdict.too_many 20
unfolding can_activate
third = refl

next_minute : (can_activate (some two_a_minute) 5 (call_at 180) after_two).0 ≡ Verdict.passed
unfolding can_activate
next_minute = refl

passed-le-limit_example : passed two_a_minute 5 minute no_counters ≤ 2 + unanswered minute
passed-le-limit_example =
    passed-le-limit two_a_minute 5 2 (ground arith) minute no_counters
      (refl, (refl, (refl, (refl, (refl, tt))))) refl
