-- ===== src/Auth/State.antt =====
-- What the authentication keeps: the users in the database, and in Redis the sessions
-- (`refresh:{user}:{token}`), the codes (`signup:code:{email}`, `pwreset:code:{email}`) and the
-- cooldowns (`signup:cooldown:{email}`, `pwreset:cooldown:{email}`). A time is in seconds; an entry
-- in Redis is gone when its time is over. An e-mail address is a number, in lower case.
use lucky_draw.Common.{
  ℕ, Bool, true, false, String, Option, none, some, List, ltb, ◌==◌, if◌then◌else◌,
}

pub data UserStatus : Type 0 where
  active suspended banned withdrawn : UserStatus

abbrev pub is_active_user : UserStatus → Bool
is_active_user UserStatus.active = true
is_active_user _ = false

pub record User : Type 0 where
  pub id : ℕ
  pub email : ℕ
  pub password_hash : String
  pub status : UserStatus
  pub token_version : ℕ
  pub email_verified : Bool
  pub last_login_at : Option ℕ

-- The value of a key `refresh:{user}:{token}` is the hash of a secret.
pub record Session : Type 0 where
  pub user : ℕ
  pub token : ℕ
  pub hash : String
  pub expires_at : ℕ

-- The payload of a code; the password hash is that of a sign-up.
pub record Code : Type 0 where
  pub code : String
  pub password_hash : String
  pub attempts : ℕ
  pub expires_at : ℕ

-- The keys of one kind, by e-mail address.
abbrev pub Codes : Type 0
Codes = ℕ → Option Code

abbrev pub Cooldowns : Type 0
Cooldowns = ℕ → Option ℕ

pub record Auth : Type 0 where
  pub users : List User
  pub sessions : List Session
  pub signup_codes : Codes
  pub reset_codes : Codes
  pub signup_cooldowns : Cooldowns
  pub reset_cooldowns : Cooldowns

pub data AuthError : Type 0 where
  invalid_refresh refresh_reused refresh_mismatch user_unavailable : AuthError
  invalid_credentials user_not_found user_inactive : AuthError
  email_registered invalid_birthdate too_young please_wait : AuthError
  code_missing too_many_attempts invalid_code : AuthError
  -- Prisma's P2025 and P2002
  row_missing row_taken : AuthError

-- A call that throws has written what it wrote before.
pub data Answer (A : Type 0) : Type 0 where
  done : A → Answer A
  failed : AuthError → Answer A

abbrev pub set_key {ℓ} : {A : Type ℓ} → ℕ → A → (ℕ → A) → ℕ → A
set_key k a f i = if i == k then a else f i

-- `GET` at a time.
abbrev pub live : ℕ → Option Code → Option Code
live now none = none
live now (some c) = if ltb now c.expires_at then some c else none
