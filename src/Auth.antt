-- ===== src/Auth.antt =====
-- The accounts and the one-time tokens (backend/app/models/user.py, auth.py), and the state that
-- the auth services change. The children hold the services. Identifiers, raw tokens and their
-- SHA-256 hashes are numbers, times are seconds. A commit that the database refuses is not
-- modelled here.
pub mod Tokens
pub mod Verification
pub mod Login
pub mod Rotation
pub mod Single
pub mod Lockout
pub mod Endpoints
pub mod Session
pub mod Strength
pub mod Renewal
use pdftalk.Prelude.{ℕ, String, Bool, Option, List, [], ◌∷◌, ◌++◌, ◌==◌}
use pdftalk.Prelude.Action.{Action, modify, ok, err}

pub record User : Type 0 where
  pub id : ℕ
  pub email : String
  pub email_lower : String
  pub password_hash : ℕ
  pub is_verified : Bool
  pub is_active : Bool
  pub failed_login_attempts : ℕ
  pub locked_until : Option ℕ
  pub last_login_at : Option ℕ

pub record RefreshToken : Type 0 where
  pub id : ℕ
  pub user_id : ℕ
  pub token_hash : ℕ
  pub expires_at : ℕ
  pub revoked_at : Option ℕ

-- `EmailVerification` and `PasswordReset` have the same columns.
pub record MailedToken : Type 0 where
  pub id : ℕ
  pub user_id : ℕ
  pub token_hash : ℕ
  pub expires_at : ℕ

pub record Store : Type 0 where
  pub users : List User
  pub refresh_tokens : List RefreshToken
  pub email_verifications : List MailedToken
  pub password_resets : List MailedToken

-- The jobs on the default queue.
pub data Mail : Type 0 where
  verification password_reset : String → ℕ → Mail

pub record State : Type 0 where
  pub saved : Store
  pub live : Store
  pub mails : List Mail

pub data Error : Type 0 where
  token_invalid token_expired : Error
  invalid_verification_token expired_verification_token : Error
  invalid_reset_token invalid_credentials unverified_email empty_password : Error

abbrev pub Service : Type 0 → Type 0
Service = Action State Error

-- What a request draws from outside: the clock, random values (`token_urlsafe` and row keys), the
-- hash functions, and Python's `lower` and `strip`.
pub record Env : Type 0 where
  pub now : ℕ
  pub token_urlsafe : ℕ
  pub row_id : ℕ
  pub user_uuid : ℕ
  pub hash_token : ℕ → ℕ
  pub hash_password : String → ℕ
  pub verify_hash : String → ℕ → Bool
  pub lower : String → String
  pub strip : String → String

abbrev pub commit : Service (Unit {0})
commit = modify λ s. record s { saved = s.live }

-- `get_db`: a request commits when it returns, and rolls back when it raises.
abbrev pub get_db : {A : Type 0} → Service A → Service A
get_db m s =
    let (r, s') = m s in
    elim r [
      | ok a ↦ (ok a, record s' { saved = s'.live })
      | err e ↦ (err e, record s' { live = s'.saved })
    ]

abbrev pub on_refresh_tokens : (List RefreshToken → List RefreshToken) → Service (Unit {0})
on_refresh_tokens f =
    modify λ s. record s { live = record s.live { refresh_tokens = f s.live.refresh_tokens } }

abbrev pub on_users : (List User → List User) → Service (Unit {0})
on_users f = modify λ s. record s { live = record s.live { users = f s.live.users } }

abbrev pub on_verifications : (List MailedToken → List MailedToken) → Service (Unit {0})
on_verifications f =
    modify
      λ s. record s { live = record s.live { email_verifications = f s.live.email_verifications } }

abbrev pub on_resets : (List MailedToken → List MailedToken) → Service (Unit {0})
on_resets f =
    modify λ s. record s { live = record s.live { password_resets = f s.live.password_resets } }

abbrev pub enqueue : Mail → Service (Unit {0})
enqueue m = modify λ s. record s { mails = s.mails ++ m ∷ [] }

abbrev pub is_user : ℕ → User → Bool
is_user i u = u.id == i
