-- ===== src/Auth/Sessions/Rotation.antt =====
-- A token is good for one refresh, and its reuse ends all sessions of its user.
use text.Mathlib.Text
use lucky_draw.Common.{
  ℕ, ◌+◌, ◌≡◌, ◌≢◌, refl, Bool, false, not, String, none, some, List, [], ◌∷◌, ◌++◌, ◌==◌, find,
  select, count_where, arith, Option-cases, Bool-cases, inl, inr,
}
use lucky_draw.Auth.State.{Auth, User, Session, done, failed, is_active_user, refresh_reused}
use lucky_draw.Auth.Sessions.{
  Refresh, AuthTokens, user_with_id, has_key, is_live_key, is_user, revoke_all, issue_tokens,
  issue_for, rotate, refresh,
}

abbrev pub is_session_of : ℕ → Session → Bool
is_session_of user x = x.user == user

pub none_of_user :
    (user : ℕ) (xs : List Session)
    → count_where (is_session_of user) (select (λ (x : Session). not (x.user == user)) xs) ≡ 0
none_of_user user [] = refl
none_of_user user (x ∷ xs) = ground (arith, none_of_user user xs)

-- A session that was deleted is not found, whatever was added under another token.
gone :
    (later user token fresh : ℕ) (added : Session) (xs : List Session)
    → (added.token == token) ≡ false
    → find (is_live_key later user token) (
        select (λ x. not (has_key user fresh x)) (select (λ x. not (has_key user token x)) xs)
        ++ added ∷ [])
      ≡ none
gone later user token fresh added [] h = ground arith
gone later user token fresh added (x ∷ xs) h = ground (
  arith,
  gone later user token fresh added xs h,
  Bool-cases (has_key user token x),
  Bool-cases (has_key user fresh x),
)

user-id :
    (id : ℕ) (us : List User) (u : User) → find (λ (x : User). x.id == id) us ≡ some u → u.id ≡ id
user-id id [] u h = absurd (ground arith)
user-id id (x ∷ us) u h = ground (arith, user-id id us u)

user-count :
    (id : ℕ) (us : List User) (u : User)
    → find (λ (x : User). x.id == id) us ≡ some u
    → (count_where (is_user id) us == 0) ≡ false
user-count id [] u h = absurd (ground arith)
user-count id (x ∷ us) u h = ground (arith, user-count id us u)

module _ (hash : String → String) (ttl now fresh_token : ℕ) (fresh_secret : String) where
  abbrev issued_session : ℕ → Session
  issued_session user = record {
    user = user;
    token = fresh_token;
    hash = hash fresh_secret;
    expires_at = now + ttl;
  }

  -- What a refresh that succeeds has found and written.
  refresh-found :
      (t : Refresh) (s s' : Auth) (tokens : AuthTokens)
      → refresh hash ttl now fresh_token fresh_secret (some t) s ≡ (done tokens, s')
      → (u : User) × (user_with_id t.user s ≡ some u)
        × (s'.users ≡ s.users)
        × (s'.sessions
            ≡ select
                (λ x. not (has_key t.user fresh_token x))
                (select (λ x. not (has_key t.user t.token x)) s.sessions)
              ++ issued_session t.user ∷ [])
  unfolding refresh rotate revoke_all issue_for issue_tokens
  refresh-found t s s' tokens h =
      elim (Option-cases (find (is_live_key now t.user t.token) s.sessions)) [
        | inl e ↦ absurd (ground (arith, Bool-cases (count_where (is_user t.user) s.users == 0)))
        | inr (x, e) ↦ elim (Bool-cases (Text.◌==◌ x.hash (hash t.secret))) [
          | inr wrong ↦
              absurd (ground (arith, Bool-cases (count_where (is_user t.user) s.users == 0)))
          | inl right ↦ elim (Option-cases (user_with_id t.user s)) [
            | inl missing ↦ absurd (ground arith)
            | inr (u, known) ↦ elim (Bool-cases (is_active_user u.status)) [
              | inr idle ↦ absurd (ground arith)
              | inl active ↦
                  let same = user-id t.user s.users u known in
                  (u, known, ground arith, ground (arith, same))
            ]
          ]
        ]
      ]

  -- After a refresh that succeeds, its token is refused as reused at any later time, and no session
  -- of its user is left, not even the one that the refresh has made; the new token is taken to differ
  -- from the old one.
  pub refresh-refresh :
      (t : Refresh) (s s' : Auth) (tokens : AuthTokens)
      → refresh hash ttl now fresh_token fresh_secret (some t) s ≡ (done tokens, s')
      → fresh_token ≢ t.token
      → (later fresh_token' : ℕ) (fresh_secret' : String)
      → (s'' : Auth) × (refresh hash ttl later fresh_token' fresh_secret' (some t) s'
          ≡ (failed refresh_reused, s''))
        × (count_where (is_session_of t.user) s''.sessions ≡ 0)
  unfolding refresh rotate revoke_all
  refresh-refresh t s s' tokens h new later fresh_token' fresh_secret' =
      let (u, known, users, sessions) = refresh-found t s s' tokens h in
      let here = user-count t.user s.users u known in
      let lost =
        gone later t.user t.token fresh_token (issued_session t.user) s.sessions (ground arith) in
      (
        (revoke_all {A = AuthTokens} t.user (failed refresh_reused) s').1,
        ground (arith, users, sessions, here, lost),
        ground (arith, users, here, none_of_user t.user s'.sessions),
      )
