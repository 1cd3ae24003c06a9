-- ===== src/Tests/Accounts.antt =====
-- Sessions and codes of one user, and an address.
use lucky_draw.Common.{
  ◌≡◌, ◌≤◌, refl, true, false, none, some, List, [], ◌∷◌, leb, arith, count_where,
}
use lucky_draw.Model.{Db, Address, ok}
use lucky_draw.Cipher.{IsFaithful}
use lucky_draw.Address.{NewAddress, create, find_one_owned}
use lucky_draw.Address.Stored.{create-find_one_owned}
use lucky_draw.Auth.State.{Auth, User, UserStatus, Code, Answer, failed, refresh_reused, live}
use lucky_draw.Auth.Sessions.{AuthTokens, Refresh, refresh, issue_tokens, user_with_email}
use lucky_draw.Auth.Sessions.Rotation.{refresh-refresh, is_session_of}
use lucky_draw.Auth.Codes.{reset_password, max_attempts}
use lucky_draw.Auth.Codes.Guesses.{Guess, compared, compared-le}
use lucky_draw.Auth.Codes.Revocation.{reset_password-revokes}
use lucky_draw.Tests.Fixtures.{empty_shop, home, plain}
use text.Mathlib.Text

abbrev kim : User
kim = record {
  id = 7;
  email = 70;
  password_hash = "old";
  status = UserStatus.active;
  token_version = 0;
  email_verified = true;
  last_login_at = none;
}

abbrev sent : Code
sent = record { code = "123456"; password_hash = ""; attempts = 4; expires_at = 300 }

abbrev auth : Auth
auth = record {
  users = kim ∷ [];
  sessions = record { user = 7; token = 1; hash = "s"; expires_at = 1000 } ∷ [];
  signup_codes = λ e. none;
  reset_codes = λ e. some sent;
  signup_cooldowns = λ e. none;
  reset_cooldowns = λ e. none;
}

abbrev held : Refresh
held = record { user = 7; token = 1; secret = "s" }

abbrev tokens_of : Answer AuthTokens × Auth → Auth
tokens_of (a, s) = s

abbrev rotated : Auth
rotated = tokens_of (refresh (λ s. s) 1000 10 2 "t" (some held) auth)

refresh-refresh_example :
    (s : Auth) × (refresh (λ s. s) 1000 20 3 "u" (some held) rotated ≡ (failed refresh_reused, s))
    × (count_where (is_session_of 7) s.sessions ≡ 0)
unfolding refresh issue_tokens
refresh-refresh_example =
    refresh-refresh (λ s. s) 1000 10 2 "t" held auth rotated
      (record {
        access_user = 7;
        access_version = 0;
        refresh = record { user = 7; token = 2; secret = "t" };
        refresh_expires_at = 1010;
      })
      refl (ground arith) 20 3 "u"

-- Only the first of three guesses is compared.
guesses : List Guess
guesses =
    record { at = 1; code = "0" }
    ∷ record { at = 2; code = "1" }
    ∷ record { at = 3; code = "123456" }
    ∷ []

compared-le_example : compared 70 guesses auth.reset_codes ≤ max_attempts
compared-le_example = compared-le 70 guesses auth.reset_codes

abbrev state_after : Answer (Unit {0}) × Auth → Auth
state_after (a, s) = s

abbrev changed : Auth
changed = state_after (reset_password (λ s. s) 10 70 "123456" "new" auth)

reset_password-revokes_example :
    (usr : User) × (c : Code) × (user_with_email 70 auth ≡ some usr)
    × (usr.status ≡ UserStatus.active)
    × (live 10 (some sent) ≡ some c)
    × (leb max_attempts c.attempts ≡ false)
    × (Text.◌==◌ c.code "123456" ≡ true)
    × (count_where (is_session_of usr.id) changed.sessions ≡ 0)
    × (changed.reset_codes 70 ≡ none)
unfolding reset_password
reset_password-revokes_example =
    reset_password-revokes (λ s. s) 10 70 "123456" "new" auth changed {u = tt} refl

abbrev given : NewAddress
given = record { fields = home; is_default = false }

plain-IsFaithful : IsFaithful plain
plain-IsFaithful = record { decrypt-encrypt = λ t col s. refl; encrypt-is_empty = λ t col s h. h }

create-find_one_owned_example :
    (a : Address) × (db' : Db) × (create plain 7 30 600 given empty_shop ≡ ok (a, db'))
    × (find_one_owned plain 7 600 db' ≡ ok (a, db'))
    × (a.fields ≡ home)
create-find_one_owned_example =
    create-find_one_owned plain 7 30 600 given plain-IsFaithful empty_shop refl
