-- ===== src/Auth/Codes.antt =====
-- The codes that are sent by mail (apps/backend/src/auth/auth.service.ts: assertAtLeast14,
-- requestSignupCode, verifySignupCode, requestPasswordResetCode, resetPassword).
pub mod Guesses
pub mod Revocation
use text.Mathlib.Text
use lucky_draw.Common.{
  ℕ, ◌+◌, ◌-◌, Bool, true, false, not, ◌&&◌, ◌||◌, String, Option, none, some, List, [], ◌∷◌, ◌++◌,
  ltb, leb, ◌==◌, is_none, if◌then◌else◌, count_where, update_where,
}
use lucky_draw.Auth.State.{
  Auth, User, UserStatus, Code, Codes, Cooldowns, AuthError, Answer, done, failed, set_key, live,
  is_active_user, email_registered, invalid_birthdate, too_young, please_wait, code_missing,
  too_many_attempts, invalid_code, user_not_found, row_taken,
}
use lucky_draw.Auth.Sessions.{AuthTokens, user_with_email, is_user, revoke_all, issue_for, has_key}

abbrev pub code_ttl : ℕ
code_ttl = 300

abbrev pub resend_cooldown : ℕ
resend_cooldown = 30

abbrev pub max_attempts : ℕ
max_attempts = 5

pub record Date : Type 0 where
  pub year : ℕ
  pub month : ℕ
  pub day : ℕ

-- Whether the birthday of this year is still to come.
abbrev pub is_before_birthday : Date → Date → Bool
is_before_birthday today birth =
    ltb today.month birth.month || today.month == birth.month && ltb today.day birth.day

abbrev pub is_below_14 : Date → Date → Bool
is_below_14 today birth =
    ltb today.year (birth.year + (if is_before_birthday today birth then 15 else 14))

-- `none` is a date that does not parse; the answer is the error to throw.
abbrev pub assert_at_least_14 : Date → Option Date → Option AuthError
assert_at_least_14 today none = some invalid_birthdate
assert_at_least_14 today (some birth) = if is_below_14 today birth then some too_young else none

-- `ttl > 0 ? ttl : CODE_TTL`, from now on.
abbrev pub kept_until : ℕ → ℕ → ℕ
kept_until now expires_at = if ltb now expires_at then expires_at else now + code_ttl

pub data Check : Type 0 where
  missing exhausted mismatch : Check
  matching : Code → Check

-- From the value that `GET` gave: the comparison, and the `SET` or `DEL` on the keys as they are by
-- then.
abbrev pub check_live : ℕ → ℕ → String → Codes → Option Code → Check × Codes
check_live now email guess codes none = (Check.missing, codes)
check_live now email guess codes (some c) =
    if leb max_attempts c.attempts
    then (Check.exhausted, set_key email none codes)
    else if not (Text.◌==◌ c.code guess)
    then (
      Check.mismatch,
      set_key email
          (some (record c { attempts = c.attempts + 1; expires_at = kept_until now c.expires_at }))
          codes,
    )
    else (Check.matching c, set_key email none codes)

-- What both verifications begin with, when no other call writes the key between the `GET` and the
-- write.
unfoldable pub check_code : ℕ → ℕ → String → Codes → Check × Codes
check_code now email guess codes = check_live now email guess codes (live now (codes email))

abbrev pub is_cooling : ℕ → Option ℕ → Bool
is_cooling now none = false
is_cooling now (some until) = ltb now until

-- The age, the cooldown, and the two keys; the mail is the caller's.
module _ (now : ℕ) (fresh_code : String) where
  abbrev pub new_code : String → Code
  new_code password_hash = record {
    code = fresh_code;
    password_hash = password_hash;
    attempts = 0;
    expires_at = now + code_ttl;
  }

  abbrev pub send_unless : Option AuthError → ℕ → String → Auth → Answer (Unit {0}) × Auth
  send_unless (some e) email password_hash s = (failed e, s)
  send_unless none email password_hash s =
      if is_cooling now (s.signup_cooldowns email) then (failed please_wait, s) else (
        done tt,
        record s {
          signup_codes = set_key email (some (new_code password_hash)) s.signup_codes;
          signup_cooldowns = set_key email (some (now + resend_cooldown)) s.signup_cooldowns;
        },
      )

  unfoldable pub request_signup_code :
      Date → ℕ → String → Option Date → Auth → Answer (Unit {0}) × Auth
  request_signup_code today email password_hash birth s =
      if not (is_none (user_with_email email s))
      then (failed email_registered, s)
      else send_unless (assert_at_least_14 today birth) email password_hash s

  -- Whoever asks, the answer is the same.
  abbrev pub send_reset : ℕ → Option User → Auth → Auth
  send_reset email none s = s
  send_reset email (some u) s =
      if not (is_active_user u.status)
      then s
      else record s { reset_codes = set_key email (some (new_code "")) s.reset_codes }

  unfoldable pub request_password_reset_code : ℕ → Auth → Auth
  request_password_reset_code email s =
      if is_cooling now (s.reset_cooldowns email)
      then s
      else send_reset email (user_with_email email s) (record s {
        reset_cooldowns = set_key email (some (now + resend_cooldown)) s.reset_cooldowns;
      })

module _ (hash : String → String) (ttl now fresh_token : ℕ) (fresh_secret : String)
    (fresh_user : ℕ) where
  abbrev pub new_user : ℕ → Code → User
  new_user email c = record {
    id = fresh_user;
    email = email;
    password_hash = c.password_hash;
    status = UserStatus.active;
    token_version = 0;
    email_verified = true;
    last_login_at = none;
  }

  unfoldable pub sign_up : ℕ → Check → Auth → Answer AuthTokens × Auth
  unfolding issue_for
  sign_up email Check.missing s = (failed code_missing, s)
  sign_up email Check.exhausted s = (failed too_many_attempts, s)
  sign_up email Check.mismatch s = (failed invalid_code, s)
  sign_up email (Check.matching c) s =
      if not (is_none (user_with_email email s))
      then (failed email_registered, s)
      else issue_for hash ttl now fresh_token fresh_secret (new_user email c)
          (record s { users = s.users ++ new_user email c ∷ [] })

  unfoldable pub verify_signup_code : ℕ → String → Auth → Answer AuthTokens × Auth
  unfolding check_code sign_up
  verify_signup_code email guess s =
      let checked = check_code now email guess s.signup_codes in
      sign_up email checked.0 (record s { signup_codes = checked.1 })

-- The password, all sessions, and the cooldown.
module _ (hash_password : String → String) (now : ℕ) where
  abbrev pub lift_cooldown : ℕ → Answer (Unit {0}) × Auth → Answer (Unit {0}) × Auth
  lift_cooldown email (failed e, s) = (failed e, s)
  lift_cooldown email (done u, s) =
      (done u, record s { reset_cooldowns = set_key email none s.reset_cooldowns })

  abbrev pub change_password : ℕ → String → Option User → Auth → Answer (Unit {0}) × Auth
  change_password email password none s = (failed user_not_found, s)
  change_password email password (some u) s =
      if not (is_active_user u.status)
      then (failed user_not_found, s)
      else lift_cooldown email (
          revoke_all u.id (done tt) (record s {
            users =
                update_where (is_user u.id)
                  (λ (x : User). record x { password_hash = hash_password password }) s.users;
          }))

  unfoldable pub reset_checked : ℕ → String → Check → Auth → Answer (Unit {0}) × Auth
  unfolding revoke_all
  reset_checked email password Check.missing s = (failed code_missing, s)
  reset_checked email password Check.exhausted s = (failed too_many_attempts, s)
  reset_checked email password Check.mismatch s = (failed invalid_code, s)
  reset_checked email password (Check.matching c) s =
      change_password email password (user_with_email email s) s

  unfoldable pub reset_password : ℕ → String → String → Auth → Answer (Unit {0}) × Auth
  unfolding check_code reset_checked
  reset_password email guess password s =
      let checked = check_code now email guess s.reset_codes in
      reset_checked email password checked.0 (record s { reset_codes = checked.1 })
