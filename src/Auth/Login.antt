-- ===== src/Auth/Login.antt =====
-- backend/app/services/user_service.py: registration and login.
use pdftalk.Prelude.Action.{◌>>=◌, pure, raise, ◌>>◌, ok, err}
use pdftalk.Prelude.{
  ℕ, ◌+◌, String, Bool, true, false, not, ◌&&◌, none, some, [], ◌∷◌, ◌++◌, ltb, leb, if◌then◌else◌,
  str_eq, ◌*◌,
}
use pdftalk.Auth.{
  Service, Env, commit, User, on_users, on_verifications, is_user, invalid_credentials,
  unverified_email, empty_password,
}
use pdftalk.Auth.Tokens.{Claims, issue_token_pair}
use pdftalk.Auth.Verification.{of_user, send_verification_email_for_user}
use pdftalk.Prelude.Table.{find, delete, update}

abbrev pub max_failed_attempts : ℕ
max_failed_attempts = 10

abbrev pub lockout_seconds : ℕ
lockout_seconds = 15 * 60

abbrev pub has_email : String → User → Bool
has_email e u = str_eq u.email_lower e

-- `_pwd_context.hash` is not called on an empty password, and `verify_password` is false on one.
unfoldable pub verify_password : Env → String → ℕ → Bool
verify_password env plain hashed = not (str_eq plain "") && env.verify_hash plain hashed

abbrev pub new_user : Env → String → String → User
new_user env email password = record {
  id = env.user_uuid;
  email = env.strip email;
  email_lower = env.lower (env.strip email);
  password_hash = env.hash_password password;
  is_verified = false;
  is_active = true;
  failed_login_attempts = 0;
  locked_until = none;
  last_login_at = none;
}

unfoldable pub resend : Env → User → Service (Unit {0})
resend env existing = do
  on_verifications (delete (of_user existing.id))
  send_verification_email_for_user env existing.id existing.email
  commit

unfoldable pub create : Env → String → String → Service (Unit {0})
create env email password = if str_eq password "" then raise empty_password else (do
  on_users (λ us. us ++ new_user env email password ∷ [])
  send_verification_email_for_user env env.user_uuid (env.strip email)
  commit)

unfoldable pub register : Env → String → String → Service (Unit {0})
unfolding resend create
register env email password s = elim (find (has_email (env.lower (env.strip email))) s.live.users) [
  | none ↦ create env email password s
  | some existing ↦ if existing.is_verified then (ok tt, s) else resend env existing s
]

abbrev pub is_locked : Env → User → Bool
is_locked env u = elim u.locked_until [ none ↦ false | some t ↦ ltb env.now t ]

-- What a wrong password does to the row.
abbrev pub count_failure : Env → User → User
count_failure env u =
    if leb max_failed_attempts (u.failed_login_attempts + 1)
    then record u { locked_until = some (env.now + lockout_seconds); failed_login_attempts = 0 }
    else record u { failed_login_attempts = u.failed_login_attempts + 1 }

abbrev pub count_success : Env → User → User
count_success env u = record u {
  failed_login_attempts = 0;
  locked_until = none;
  last_login_at = some env.now;
}

unfoldable pub wrong_password : Env → User → Service (Claims × ℕ × ℕ × User)
wrong_password env user = do
  on_users (update (is_user user.id) (count_failure env))
  commit
  raise invalid_credentials

unfoldable pub right_password : Env → User → Service (Claims × ℕ × ℕ × User)
right_password env user = do
  on_users (update (is_user user.id) (count_success env))
  (access, raw, expires_in) ← issue_token_pair env user.id
  pure (access, raw, expires_in, count_success env user)

-- The steps of `login` on a row that was found.
unfoldable pub attempt : Env → String → User → Service (Claims × ℕ × ℕ × User)
unfolding wrong_password right_password
attempt env password user =
    if not user.is_verified
    then raise unverified_email
    else if not user.is_active
    then raise invalid_credentials
    else if is_locked env user
    then raise invalid_credentials
    else if verify_password env password user.password_hash
    then right_password env user
    else wrong_password env user

unfoldable pub login : Env → String → String → Service (Claims × ℕ × ℕ × User)
unfolding attempt
login env email password s = elim (find (has_email (env.strip (env.lower email))) s.live.users) [
  | none ↦ (err invalid_credentials, s)
  | some user ↦ attempt env password user s
]
