-- ===== src/Auth/Sessions.antt =====
-- Sessions: their tokens are handed out, rotated and revoked (apps/backend/src/auth/auth.service.ts:
-- login, loginByUserId, refresh, logout, issueTokens, revokeAll).
pub mod Rotation
use text.Mathlib.Text
use lucky_draw.Common.{
  ℕ, ◌+◌, Bool, true, false, not, ◌&&◌, String, Option, none, some, List, [], ◌∷◌, ◌++◌, ltb, ◌==◌,
  if◌then◌else◌, find, select, count_where, update_where,
}
use lucky_draw.Auth.State.{
  Auth, User, Session, AuthError, Answer, done, failed, is_active_user, invalid_refresh,
  refresh_reused, refresh_mismatch, user_unavailable, invalid_credentials, user_not_found,
  user_inactive, row_missing,
}

-- A raw token that has three parts, none of them empty.
pub record Refresh : Type 0 where
  pub user : ℕ
  pub token : ℕ
  pub secret : String

pub record AuthTokens : Type 0 where
  pub access_user : ℕ
  pub access_version : ℕ
  pub refresh : Refresh
  pub refresh_expires_at : ℕ

abbrev pub user_with_id : ℕ → Auth → Option User
user_with_id id s = find (λ (u : User). u.id == id) s.users

abbrev pub user_with_email : ℕ → Auth → Option User
user_with_email email s = find (λ (u : User). u.email == email) s.users

abbrev pub has_key : ℕ → ℕ → Session → Bool
has_key user token x = x.user == user && x.token == token

abbrev pub is_live_key : ℕ → ℕ → ℕ → Session → Bool
is_live_key now user token x = has_key user token x && ltb now x.expires_at

abbrev pub delete_session : ℕ → ℕ → Auth → Auth
delete_session user token s = record s {
  sessions = select (λ x. not (has_key user token x)) s.sessions;
}

abbrev pub is_user : ℕ → User → Bool
is_user id u = u.id == id

abbrev pub bump_version : User → User
bump_version u = record u { token_version = u.token_version + 1 }

-- `revokeAll`: the keys of the user are deleted, by a pattern that fits exactly these where the
-- identifier has no wildcard in it, as those in the database have none; the update of the user wants a row. The error is the
-- one that its caller throws next.
unfoldable pub revoke_all : {A : Type 0} → ℕ → Answer A → Auth → Answer A × Auth
revoke_all user next s =
    let cleared = record s {
      sessions = select (λ (x : Session). not (x.user == user)) s.sessions;
    } in
    if count_where (is_user user) s.users == 0
    then (failed row_missing, cleared)
    else (next, record cleared { users = update_where (is_user user) bump_version s.users })

-- The hash function (SHA-256), the time to live of a session, and the random token and secret of the
-- session that may be made.
module _ (hash : String → String) (ttl now fresh_token : ℕ) (fresh_secret : String) where
  unfoldable pub issue_tokens : ℕ → ℕ → Auth → AuthTokens × Auth
  issue_tokens user version s = (
    record {
      access_user = user;
      access_version = version;
      refresh = record { user = user; token = fresh_token; secret = fresh_secret };
      refresh_expires_at = now + ttl;
    },
    record s {
      sessions =
          select (λ x. not (has_key user fresh_token x)) s.sessions
          ++ record {
            user = user;
            token = fresh_token;
            hash = hash fresh_secret;
            expires_at = now + ttl;
          }
            ∷ [];
    },
  )

  unfoldable pub issue_for : User → Auth → Answer AuthTokens × Auth
  unfolding issue_tokens
  issue_for u s = let issued = issue_tokens u.id u.token_version s in (done issued.0, issued.1)

  abbrev pub issue_if_active : Option User → Auth → Answer AuthTokens × Auth
  issue_if_active none s = (failed user_unavailable, s)
  issue_if_active (some u) s =
      if not (is_active_user u.status) then (failed user_unavailable, s) else issue_for u s

  -- A session that is not there was used before, so all sessions of the user are revoked.
  unfoldable pub rotate : Refresh → Option Session → Auth → Answer AuthTokens × Auth
  unfolding revoke_all issue_for
  rotate t none s = revoke_all t.user (failed refresh_reused) s
  rotate t (some x) s =
      if not (Text.◌==◌ x.hash (hash t.secret))
      then revoke_all t.user (failed refresh_mismatch) s
      else issue_if_active (user_with_id t.user s) (delete_session t.user t.token s)

  -- `none` is a token that `parseRefresh` refuses.
  unfoldable pub refresh : Option Refresh → Auth → Answer AuthTokens × Auth
  unfolding rotate
  refresh none s = (failed invalid_refresh, s)
  refresh (some t) s = rotate t (find (is_live_key now t.user t.token) s.sessions) s

  abbrev pub log_in : User → Auth → Answer AuthTokens × Auth
  log_in u s = issue_for u (record s {
    users =
        update_where (is_user u.id) (λ (x : User). record x { last_login_at = some now }) s.users;
  })

  -- `verify` is argon2's check of a password against a hash.
  unfoldable pub login : (String → String → Bool) → ℕ → String → Auth → Answer AuthTokens × Auth
  unfolding issue_for
  login verify email password s = elim (user_with_email email s) [
    | none ↦ (failed invalid_credentials, s)
    | some u ↦
        if not (is_active_user u.status)
        then (failed invalid_credentials, s)
        else if not (verify u.password_hash password)
        then (failed invalid_credentials, s)
        else log_in u s
  ]

  unfoldable pub login_by_user_id : ℕ → Auth → Answer AuthTokens × Auth
  unfolding issue_for
  login_by_user_id user s = elim (user_with_id user s) [
    | none ↦ (failed user_not_found, s)
    | some u ↦ if not (is_active_user u.status) then (failed user_inactive, s) else log_in u s
  ]

-- A missing token, or one that `parseRefresh` refuses, is none.
abbrev pub logout : Option Refresh → Auth → Auth
logout none s = s
logout (some t) s = delete_session t.user t.token s
