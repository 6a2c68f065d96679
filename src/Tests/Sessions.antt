-- ===== src/Tests/Sessions.antt =====
-- One account, and the tokens of its sessions (backend/app/auth/tokens.py and the auth services).
use pdftalk.Auth.Tokens.{
  decode_access_token, create_access_token, store_refresh_token, issue, rotate,
  revoke_all_refresh_tokens, issue_token_pair, validate_and_rotate_refresh_token,
}
use pdftalk.Auth.Endpoints.{
  Answer, user_of, restore, Cookie, rotated, restored_account, renewed, get_me, refresh,
  login_endpoint,
}
use pdftalk.Auth.Login.{right_password, attempt, verify_password, login}
use pdftalk.Auth.Session.{get_me-Shows, Shows}
use pdftalk.Auth.Renewal.{login_then_refresh}
use pdftalk.Auth.Lockout.{at_login, attempts, AllWrong, locked_at, ten_failures_lock, account}
use pdftalk.Prelude.{
  String, false, List, ◌≡◌, refl, ◌≢◌, true, Option, none, some, [], ◌∷◌, arith, str_eq, ℕ,
}
use pdftalk.Auth.{
  invalid_credentials, token_invalid, invalid_reset_token, State, Env, User, Store, RefreshToken,
  MailedToken,
}
use pdftalk.Auth.Rotation.{later, reuse_refused, revoke_all_kills}
use pdftalk.Auth.Verification.{reset_password}
use pdftalk.Auth.Single.{reset_password_expired}
use pdftalk.Prelude.Action.{ok, err}

-- Tokens are their own hashes, and the password of hash 42 is "secret".
abbrev pub sample : Env
sample = record {
  now = 1000;
  token_urlsafe = 500;
  row_id = 9;
  user_uuid = 70;
  hash_token = λ t. t;
  hash_password = λ p. 43;
  verify_hash = λ p h. str_eq p "secret";
  lower = λ e. e;
  strip = λ e. e;
}

abbrev pub ada : User
ada = record {
  id = 7;
  email = "ada@example.org";
  email_lower = "ada@example.org";
  password_hash = 42;
  is_verified = true;
  is_active = true;
  failed_login_attempts = 0;
  locked_until = none;
  last_login_at = none;
}

abbrev session : Option ℕ → RefreshToken
session revoked_at = record {
  id = 3;
  user_id = 7;
  token_hash = 11;
  expires_at = 5000;
  revoked_at = revoked_at;
}

abbrev link : ℕ → MailedToken
link t = record { id = 4; user_id = 7; token_hash = 12; expires_at = t }

abbrev with_store : Store → State
with_store store = record { saved = store; live = store; mails = [] }

abbrev signed_in : Option ℕ → State
signed_in r = with_store (record {
  users = ada ∷ [];
  refresh_tokens = session r ∷ [];
  email_verifications = [];
  password_resets = [];
})

abbrev newcomer : User
newcomer = record ada { is_verified = false }

abbrev mailed : ℕ → State
mailed t = with_store (record {
  users = newcomer ∷ [];
  refresh_tokens = session none ∷ [];
  email_verifications = link t ∷ [];
  password_resets = link t ∷ [];
})

reuse_refused_example :
    let s' = (validate_and_rotate_refresh_token sample 11 (signed_in none)).1 in
    (validate_and_rotate_refresh_token (later sample 1061 501 10) 11 s').0 ≡ err token_invalid
reuse_refused_example =
    reuse_refused sample 11 (signed_in none) (session none) 1061 501 10 refl (omega arith) refl
      (omega arith)

-- The session of another user survives.
abbrev two_users : State
two_users = with_store (record {
  users = ada ∷ [];
  refresh_tokens =
      session none ∷ record (session none) { id = 5; user_id = 8; token_hash = 13 } ∷ [];
  email_verifications = [];
  password_resets = [];
})

other_survives :
    (validate_and_rotate_refresh_token sample 13 (revoke_all_refresh_tokens 7 two_users).1).0
    ≡ ok (create_access_token sample 8, 500)
unfolding validate_and_rotate_refresh_token revoke_all_refresh_tokens rotate issue
    store_refresh_token
other_survives = refl

revoke_all_kills_example : (create_access_token sample 8).sub ≢ some 7
revoke_all_kills_example =
    revoke_all_kills sample 7 13 two_users (create_access_token sample 8, 500) other_survives

reset_password_expired_example :
    reset_password sample 12 "fresh" (mailed 900) ≡ (err invalid_reset_token, mailed 900)
reset_password_expired_example =
    reset_password_expired sample 12 (mailed 900) (link 900) "fresh" refl (omega arith)

abbrev welcomed : User
welcomed = record ada { last_login_at = some 1000 }

right_login :
    (login sample "ada@example.org" "secret" (signed_in none)).0
    ≡ ok (create_access_token sample 7, 500, 900, welcomed)
unfolding login issue_token_pair store_refresh_token verify_password
right_login = refl

no_secret : verify_password sample "guess" 42 ≡ false
unfolding verify_password
no_secret = refl

abbrev guesses : List (ℕ × String)
guesses =
    (1, "guess")
    ∷ (2, "guess")
    ∷ (3, "guess")
    ∷ (4, "guess")
    ∷ (5, "guess")
    ∷ (6, "guess")
    ∷ (7, "guess")
    ∷ (8, "guess")
    ∷ (9, "guess")
    ∷ []

all_guessed : AllWrong sample 42 guesses
unfolding verify_password
all_guessed = (refl, (refl, (refl, (refl, (refl, (refl, (refl, (refl, (refl, tt)))))))))

ten_failures_lock_example :
    let s' =
      (login
        (at_login sample 10)
        "ada@example.org"
        "guess"
        (attempts sample "ada@example.org" guesses (signed_in none))).1 in
    (account sample "ada@example.org" s' ≡ some (locked_at 10 ada))
    × (login (at_login sample 800) "ada@example.org" "secret" s' ≡ (err invalid_credentials, s'))
ten_failures_lock_example =
    ten_failures_lock sample "ada@example.org" "guess" guesses 10 (signed_in none) ada refl refl
      refl refl refl refl all_guessed no_secret 800 "secret" (omega arith)

page_reloads :
    (get_me sample none (some 11) (signed_in none)).0
    ≡ ok (restored_account (create_access_token sample 7, 500) (some ada))
unfolding get_me restore validate_and_rotate_refresh_token rotate issue store_refresh_token
    create_access_token user_of restored_account decode_access_token
page_reloads = refl

get_me-Shows_example :
    Shows
      (get_me sample none (some 11) (signed_in none)).1.live
      (restored_account (create_access_token sample 7, 500) (some ada))
get_me-Shows_example = get_me-Shows sample none (some 11) (signed_in none) _ page_reloads

abbrev ada_logged_in : Answer
ada_logged_in = record {
  status = 200;
  cookie = renewed 500;
  shown = some (7, "ada@example.org");
  access = some (create_access_token sample 7, 900);
}

ada_logs_in :
    (login_endpoint sample "ada@example.org" "secret" (signed_in none)).0 ≡ ok ada_logged_in
unfolding login_endpoint login attempt right_password issue_token_pair store_refresh_token
    create_access_token verify_password
ada_logs_in = refl

login_then_refresh_example :
    let s' = (login_endpoint sample "ada@example.org" "secret" (signed_in none)).1 in
    let env' = later sample 2000 501 10 in
    (i : ℕ) × (e : String) × (◌≡◌ {A = Option (ℕ × String)}
      (some (7, "ada@example.org"))
      (some (i, e)))
    × (◌≡◌ {A = Cookie} (renewed 500) (renewed 500))
    × ((refresh env' (some 500) s').0 ≡ ok (rotated (create_access_token env' i, 501)))
login_then_refresh_example =
    login_then_refresh sample "ada@example.org" "secret" (signed_in none) ada_logged_in 2000 501 10
      ada_logs_in refl (omega arith)
