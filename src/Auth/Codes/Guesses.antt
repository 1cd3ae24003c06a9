-- ===== src/Auth/Codes/Guesses.antt =====
-- How often a code can be guessed.
use text.Mathlib.Text
use lucky_draw.Common.{
  ℕ, suc, ◌+◌, ◌-◌, ◌≤◌, Bool, true, false, String, Option, none, some, List, [], ◌∷◌, ltb, leb,
  if◌then◌else◌, arith, Option-cases, Bool-cases, inl, inr,
}
use lucky_draw.Auth.State.{Code, Codes}
use lucky_draw.Auth.Codes.{Check, check_code, max_attempts}

-- A guess that is compared with the code.
abbrev pub is_compared : Check → Bool
is_compared Check.missing = false
is_compared Check.exhausted = false
is_compared Check.mismatch = true
is_compared (Check.matching c) = true

pub record Guess : Type 0 where
  pub at : ℕ
  pub code : String

-- The guesses for one e-mail address, one after the other: how many are compared with the code. Each
-- reads what the one before has written; guesses at the same time are not described by this.
unfoldable pub compared : ℕ → List Guess → Codes → ℕ
unfolding check_code
compared email [] codes = 0
compared email (g ∷ gs) codes =
    let checked = check_code g.at email g.code codes in
    let rest = compared email gs checked.1 in if is_compared checked.0 then suc rest else rest

-- What is left of the attempts.
abbrev attempts_left : Option Code → ℕ
attempts_left none = 0
attempts_left (some c) = max_attempts - c.attempts

one_guess :
    (email : ℕ) (g : Guess) (codes : Codes)
    → (if is_compared (check_code g.at email g.code codes).0 then 1 else 0)
        + attempts_left ((check_code g.at email g.code codes).1 email)
      ≤ attempts_left (codes email)
unfolding check_code
one_guess email g codes = elim (Option-cases (codes email)) [
  | inl e ↦ ground arith
  | inr (c, e) ↦ elim (Bool-cases (ltb g.at c.expires_at)) [
    | inl e' ↦
        ground
          (arith, Bool-cases (leb max_attempts c.attempts), Bool-cases (Text.◌==◌ c.code g.code))
    | inr e' ↦ ground arith
  ]
]

compared-le-left :
    (email : ℕ) (gs : List Guess) (codes : Codes)
    → compared email gs codes ≤ attempts_left (codes email)
unfolding compared
compared-le-left email [] codes = omega arith
compared-le-left email (g ∷ gs) codes = ground (
  arith,
  one_guess email g codes,
  compared-le-left email gs (check_code g.at email g.code codes).1,
)

attempts_left-le : (c : Option Code) → attempts_left c ≤ max_attempts
attempts_left-le none = omega arith
attempts_left-le (some c) = omega arith

-- However many guesses are made for an e-mail address, one after the other and each after the one
-- before has been answered, at most five of them are compared with the code, unless a new code is
-- requested.
pub compared-le :
    (email : ℕ) (gs : List Guess) (codes : Codes) → compared email gs codes ≤ max_attempts
compared-le email gs codes =
    omega (arith, compared-le-left email gs codes, attempts_left-le (codes email))
