-- ===== src/Auth/Endpoints.antt =====
-- backend/app/routers/auth.py and backend/app/auth/dependencies.py. Each endpoint runs in a session
-- that commits when it answers. A bearer token is given as what `jwt.decode` says of it. Rate
-- limits, and a mail queue that fails, are not modelled here.
use pdftalk.Prelude.{ℕ, String, Bool, true, false, not, ◌||◌, Option, none, some, if◌then◌else◌}
use pdftalk.Prelude.Action.{Result, pure, raise, modify, ◌>>=◌, ◌>>◌, catch, ok, err}
use pdftalk.Prelude.Table.{find}
use pdftalk.Auth.{token_expired, Error, Service, Env, Store, User, get_db, token_invalid, is_user}
use pdftalk.Auth.Tokens.{
  Claims, Decoded, payload, decode_access_token, validate_and_rotate_refresh_token,
  revoke_refresh_token, revoke_all_refresh_tokens, access_token_expire_seconds,
}
use pdftalk.Auth.Login.{register, resend, login, has_email}
use pdftalk.Auth.Verification.{initiate_password_reset}
use pdftalk.Exceptions.{
  PdfTalkError, invalid_token, expired_token, user_not_found, inactive_user, unverified_user,
}

-- What happens to the cookie with the refresh token.
pub data Cookie : Type 0 where
  left_alone forgotten : Cookie
  renewed : ℕ → Cookie

-- What an answer tells: an account, and an access token with its life.
pub record Answer : Type 0 where
  pub status : ℕ
  pub cookie : Cookie
  pub shown : Option (ℕ × String)
  pub access : Option (Claims × ℕ)

abbrev pub bare : ℕ → Cookie → Answer
bare status cookie = record { status = status; cookie = cookie; shown = none; access = none }

abbrev pub account_of : User → ℕ × String
account_of u = (u.id, u.email)

-- `get_current_user`
abbrev pub is_expiry : Error → Bool
is_expiry token_expired = true
is_expiry e = false

unfoldable pub get_current_user : Option Decoded → Result PdfTalkError ℕ
get_current_user none = err invalid_token
get_current_user (some token) = elim (decode_access_token token) [
  | ok user_id ↦ ok user_id
  | err e ↦ err (if is_expiry e then expired_token else invalid_token)
]

-- The tests of `get_verified_user` on a row.
abbrev pub check_account : User → Result PdfTalkError User
check_account u =
    if not u.is_active
    then err inactive_user
    else if not u.is_verified
    then err unverified_user
    else ok u

unfoldable pub get_verified_user : Option Decoded → Store → Result PdfTalkError User
unfolding get_current_user
get_verified_user bearer db = elim (get_current_user bearer) [
  | err e ↦ err e
  | ok user_id ↦ elim (find (is_user user_id) db.users) [
    | none ↦ err user_not_found
    | some u ↦ check_account u
  ]
]

unfoldable pub register_endpoint : Env → String → String → Service Answer
register_endpoint env email password =
    get_db (do register env email password; pure (bare 202 left_alone))

abbrev pub rollback : Service (Unit {0})
rollback = modify λ s. record s { live = s.saved }

-- `resend_verification`: the deletion is undone when the delivery fails.
unfoldable pub resend_to : Env → User → Service (Unit {0})
resend_to env u = if u.is_verified then pure tt else catch (resend env u) (λ e. rollback)

unfoldable pub resend_verification : Env → String → Service Answer
unfolding resend_to
resend_verification env email = get_db (λ s.
    elim (find (has_email (env.lower (env.strip email))) s.live.users) [
      | none ↦ (ok (bare 202 left_alone), s)
      | some u ↦ (resend_to env u >> pure (bare 202 left_alone)) s
    ])

abbrev pub logged_in : Claims × ℕ × ℕ × User → Answer
logged_in (access, raw, expires_in, u) = record {
  status = 200;
  cookie = renewed raw;
  shown = some (account_of u);
  access = some (access, expires_in);
}

unfoldable pub login_endpoint : Env → String → String → Service Answer
login_endpoint env email password = get_db (do r ← login env email password; pure (logged_in r))

-- `except TokenInvalidError`: the answer also forgets the cookie.
abbrev pub on_invalid : ℕ → Error → Service Answer
on_invalid status token_invalid = pure (bare status forgotten)
on_invalid status e = raise e

abbrev pub rotated : Claims × ℕ → Answer
rotated (access, raw) = record {
  status = 200;
  cookie = renewed raw;
  shown = none;
  access = some (access, access_token_expire_seconds);
}

unfoldable pub refresh : Env → Option ℕ → Service Answer
refresh env none s = (ok (bare 401 left_alone), record s { live = s.saved })
refresh env (some raw_token) s =
    get_db
      (catch (do pair ← validate_and_rotate_refresh_token env raw_token; pure (rotated pair))
        (on_invalid 401))
      s

unfoldable pub logout : Env → Option ℕ → Service Answer
logout env none = get_db (pure (bare 204 forgotten))
logout env (some raw_token) =
    get_db (do revoke_refresh_token env raw_token; pure (bare 204 forgotten))

-- The first path of `get_me`: a valid bearer token.
unfoldable pub known_account : Option User → Answer
known_account none = bare 204 left_alone
known_account (some u) =
    if not u.is_active
    then bare 204 left_alone
    else if not u.is_verified
    then bare 204 left_alone
    else record { status = 200; cookie = left_alone; shown = some (account_of u); access = none }

-- The end of the second path, with the pair that the rotation issued.
unfoldable pub restored_account : Claims × ℕ → Option User → Answer
restored_account pair none = bare 204 left_alone
restored_account (access, raw) (some u) =
    if not u.is_active || not u.is_verified then bare 204 left_alone else record {
      status = 200;
      cookie = renewed raw;
      shown = some (account_of u);
      access = some (access, access_token_expire_seconds);
    }

-- The user that the new access token names.
unfoldable pub user_of : Claims → Store → Option User
user_of access db = elim (decode_access_token (payload access)) [
  | err e ↦ none
  | ok user_id ↦ find (is_user user_id) db.users
]

unfoldable pub restore : Env → ℕ → Service Answer
restore env raw_token =
    catch
      (do
        pair ← validate_and_rotate_refresh_token env raw_token
        λ s. (ok (restored_account pair (user_of pair.0 s.live)), s))
      (on_invalid 204)

abbrev pub cookie_path : Env → Option ℕ → Service Answer
cookie_path env none = pure (bare 204 left_alone)
cookie_path env (some raw_token) = restore env raw_token

-- The first path falls back to the second when the token does not decode.
abbrev pub bearer_path : Env → Decoded → Option ℕ → Service Answer
bearer_path env token cookie s = elim (decode_access_token token) [
  | err e ↦ cookie_path env cookie s
  | ok user_id ↦ (ok (known_account (find (is_user user_id) s.live.users)), s)
]

-- `GET /auth/me`; `bearer` is none with no bearer token.
unfoldable pub get_me : Env → Option Decoded → Option ℕ → Service Answer
get_me env none cookie = get_db (cookie_path env cookie)
get_me env (some token) cookie = get_db (bearer_path env token cookie)

unfoldable pub forgot_password : Env → String → Service Answer
forgot_password env email =
    get_db (do initiate_password_reset env email; pure (bare 202 left_alone))

-- `DELETE /auth/sessions`, for the user that `get_verified_user` gave.
unfoldable pub revoke_all_sessions : User → Service Answer
revoke_all_sessions u = get_db (do n ← revoke_all_refresh_tokens u.id; pure (bare 204 forgotten))
