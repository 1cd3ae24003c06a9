-- ===== src/Auth/Codes/Revocation.antt =====
-- A reset of the password ends all sessions.
use text.Mathlib.Text
use lucky_draw.Common.{
  ℕ, ◌≡◌, refl, true, false, String, none, some, List, leb, ◌==◌, count_where, update_where, arith,
  Option-cases, Bool-cases, inl, inr,
}
use lucky_draw.Auth.State.{Auth, User, UserStatus, Code, done, live, is_active_user}
use lucky_draw.Auth.Sessions.{user_with_email, is_user, revoke_all}
use lucky_draw.Auth.Sessions.Rotation.{is_session_of, none_of_user}
use lucky_draw.Auth.Codes.{check_code, max_attempts, reset_checked, reset_password}

is_active_user-active : (s : UserStatus) → is_active_user s ≡ true → s ≡ UserStatus.active
is_active_user-active UserStatus.active h = refl
is_active_user-active _ h = ground arith

module _ (hash_password : String → String) (now : ℕ) (email : ℕ) (guess password : String) where
  abbrev rehashed : ℕ → List User → List User
  rehashed id us =
      update_where (is_user id) (λ (x : User). record x { password_hash = hash_password password })
        us

  -- If the password is reset, then an active user has this address, a code that is not over was sent
  -- to it, was guessed less than five times before and is the one given; no session of the user is
  -- left, and the code cannot be used again.
  pub reset_password-revokes :
      (s s' : Auth) {u : Unit {0}}
      → reset_password hash_password now email guess password s ≡ (done u, s')
      → (usr : User) × (c : Code) × (user_with_email email s ≡ some usr)
        × (usr.status ≡ UserStatus.active)
        × (live now (s.reset_codes email) ≡ some c)
        × (leb max_attempts c.attempts ≡ false)
        × (Text.◌==◌ c.code guess ≡ true)
        × (count_where (is_session_of usr.id) s'.sessions ≡ 0)
        × (s'.reset_codes email ≡ none)
  unfolding reset_password reset_checked check_code revoke_all
  reset_password-revokes s s' h = elim (Option-cases (live now (s.reset_codes email))) [
    | inl e ↦ absurd (ground arith)
    | inr (c, e) ↦ elim (Bool-cases (leb max_attempts c.attempts)) [
      | inl many ↦ absurd (ground arith)
      | inr few ↦ elim (Bool-cases (Text.◌==◌ c.code guess)) [
        | inr wrong ↦ absurd (ground arith)
        | inl right ↦ elim (Option-cases (user_with_email email s)) [
          | inl missing ↦ absurd (ground arith)
          | inr (usr, known) ↦ (
            usr,
            c,
            known,
            is_active_user-active usr.status
                (ground (arith, Bool-cases (is_active_user usr.status))),
            e,
            few,
            right,
            ground (
              arith,
              Bool-cases (is_active_user usr.status),
              Bool-cases (count_where (is_user usr.id) (rehashed usr.id s.users) == 0),
              none_of_user usr.id s.sessions,
            ),
            ground (
              arith,
              Bool-cases (is_active_user usr.status),
              Bool-cases (count_where (is_user usr.id) (rehashed usr.id s.users) == 0),
            ),
          )
        ]
      ]
    ]
  ]
