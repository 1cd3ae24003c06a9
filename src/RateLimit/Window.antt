-- ===== src/RateLimit/Window.antt =====
-- How many requests pass within a window.
use native.Mathlib.Nat.{lt-div-mul-add, div-mul-le_self}
use lucky_draw.Common.{
  ℕ, suc, ◌+◌, ◌-◌, ◌*◌, ◌/◌, ◌≤◌, ◌<◌, ◌≡◌, refl, sym, ==_refl, Bool, true, false, ◌&&◌, Option,
  none, some, List, [], ◌∷◌, ltb, ◌==◌, if◌then◌else◌, All, arith, Option-cases, Bool-cases, inl,
  inr,
}
use lucky_draw.RateLimit.{
  Options, Counter, Counters, Call, Verdict, check_key, set_counter, can_activate,
}

abbrev pub is_passed : Verdict → Bool
is_passed Verdict.passed = true
is_passed (Verdict.too_many n) = false

-- The requests of one key, one after the other: how many pass.
unfoldable pub passed : Options → ℕ → List Call → Counters → ℕ
unfolding can_activate
passed o key [] cs = 0
passed o key (call ∷ calls) cs =
    let checked = can_activate (some o) key call cs in
    let rest = passed o key calls checked.1 in if is_passed checked.0 then suc rest else rest

-- The requests for which Redis did not answer a call.
abbrev pub is_answered : Call → Bool
is_answered call = call.incr_answers && call.expire_answers && call.ttl_answers

abbrev pub unanswered : List Call → ℕ
unanswered [] = 0
unanswered (call ∷ calls) =
    let rest = unanswered calls in if is_answered call then rest else suc rest

-- What the counter still lets through; it is not over before the bucket is.
abbrev left : ℕ → Option Counter → ℕ
left limit none = limit
left limit (some c) = limit - c.count

abbrev Lasts : ℕ → Option ℕ → Type 0
Lasts end none = Unit
Lasts end (some t) = end ≤ t

abbrev LastsAll : ℕ → Option Counter → Type 0
LastsAll end none = Unit
LastsAll end (some c) = Lasts end c.expires_at

one_call :
    (o : Options) (call : Call) (c : Option Counter) (end : ℕ)
    → call.at < end
    → end ≤ call.at + o.window
    → LastsAll end c
    → LastsAll end (check_key o call c).1
      × ((if is_passed (check_key o call c).0 then 1 else 0) + left o.limit (check_key o call c).1
          ≤ left o.limit c + (if is_answered call then 0 else 1))
unfolding check_key
one_call o call none end before late h = ground (
  arith,
  Bool-cases call.incr_answers,
  Bool-cases call.expire_answers,
  Bool-cases call.ttl_answers,
)
one_call o call (some c) end before late h = elim (Option-cases c.expires_at) [
  | inl e ↦ ground (
    arith,
    Bool-cases call.incr_answers,
    Bool-cases call.expire_answers,
    Bool-cases call.ttl_answers,
    Bool-cases (c.count + 1 == 1),
    Bool-cases (ltb o.limit (c.count + 1)),
  )
  | inr (t, e) ↦ ground (
    arith,
    Bool-cases call.incr_answers,
    Bool-cases call.expire_answers,
    Bool-cases call.ttl_answers,
    Bool-cases (c.count + 1 == 1),
    Bool-cases (ltb o.limit (c.count + 1)),
  )
]

-- Every request of the list falls into the bucket.
abbrev pub IsWithin : ℕ → ℕ → Call → Type 0
IsWithin window bucket call = call.at / window ≡ bucket

set_counter_self :
    (key bucket : ℕ) (c : Option Counter) (cs : Counters)
    → set_counter key bucket c cs key bucket ≡ c
set_counter_self key bucket c cs = ground (arith, ==_refl key, ==_refl bucket)

add_call :
    (p a : Bool) (n u l l' : ℕ)
    → (if p then 1 else 0) + l' ≤ l + (if a then 0 else 1)
    → n ≤ l' + u
    → (if p then suc n else n) ≤ l + (if a then u else suc u)
add_call p a n u l l' one next = ground (arith, Bool-cases p, Bool-cases a, one, next)

module _ (o : Options) (key bucket : ℕ) (positive : 0 < o.window) where
  -- A request within the bucket counts on the bucket's key.
  can_activate_within :
      (call : Call) (cs : Counters)
      → IsWithin o.window bucket call
      → ((can_activate (some o) key call cs).0 ≡ (check_key o call (cs key bucket)).0)
        × ((can_activate (some o) key call cs).1 key bucket ≡ (check_key o call (cs key bucket)).1)
  unfolding can_activate
  can_activate_within call cs within = (
    rw within refl,
    rw within (set_counter_self key bucket (check_key o call (cs key bucket)).1 cs),
  )

  within_start : (call : Call) → IsWithin o.window bucket call → bucket * o.window ≤ call.at
  within_start call within = rw (sym within) (div-mul-le_self call.at o.window)

  within_end :
      (call : Call) → IsWithin o.window bucket call → call.at < bucket * o.window + o.window
  within_end call within = rw (sym within) (lt-div-mul-add positive)

  passed-le :
      (calls : List Call) (cs : Counters)
      → All (IsWithin o.window bucket) calls
      → LastsAll (bucket * o.window + o.window) (cs key bucket)
      → passed o key calls cs ≤ left o.limit (cs key bucket) + unanswered calls
  unfolding passed
  passed-le [] cs inside lasts = omega arith
  passed-le (call ∷ calls) cs inside lasts =
      let start = within_start call inside.0 in
      let late : bucket * o.window + o.window ≤ call.at + o.window = omega (arith, start) in
      let one =
        one_call o call (cs key bucket) (bucket * o.window + o.window) (within_end call inside.0)
          late lasts in
      let at = can_activate_within call cs inside.0 in
      let next = passed-le calls (can_activate (some o) key call cs).1 inside.1 (rw at.1 one.0) in
      add_call _ _ _ _ _ _ (rw (at.0, at.1) one.1) next

  -- Within a bucket no more requests of a key pass than the limit and one for each request for which
  -- Redis did not answer, when the bucket's key is not there yet.
  pub passed-le-limit :
      (calls : List Call) (cs : Counters)
      → All (IsWithin o.window bucket) calls
      → cs key bucket ≡ none
      → passed o key calls cs ≤ o.limit + unanswered calls
  passed-le-limit calls cs inside new =
      let bound = passed-le calls cs inside (rw new tt) in grind (arith, bound, new)
