-- ===== src/Admin.antt =====
-- backend/app/routers/internal.py: the operator's session and the guards of the internal endpoints.
-- The Redis keys of sessions are named by an argument; `secrets.compare_digest` is equality. The
-- statistics and the webhook, which only read or hand on, are not modelled here.
pub mod Lifetime
use pdftalk.Prelude.{ℕ, ◌*◌, String, Option, none, some, if◌then◌else◌, str_eq}
use pdftalk.Prelude.Action.{Result, ok, err, Action}
use pdftalk.Prelude.Table.{delete}
use pdftalk.OpenAi.{Redis}

abbrev pub session_seconds : ℕ
session_seconds = 60 * 60 * 8

-- The settings and what a request draws from outside; `admin_token` is none where it is not set.
pub record Desk : Type 0 where
  pub now : ℕ
  pub token_urlsafe : ℕ
  pub admin_token : Option String
  pub session_key : ℕ → String

-- What happens to the session cookie.
pub data SessionCookie : Type 0 where
  opened_as : ℕ → SessionCookie
  deleted_cookie : SessionCookie

module _ {S : Type 0} (redis : Redis S) (desk : Desk) where
  -- An error is the status of the HTTPException.
  unfoldable pub require_admin_cookie : Option ℕ → S → Result ℕ (Unit {0})
  require_admin_cookie none s = err 401
  require_admin_cookie (some session) s = elim (redis.get (desk.session_key session) desk.now s) [
    | none ↦ err 401
    | some value ↦ ok tt
  ]

  unfoldable pub require_admin_bearer : String → Result ℕ (Unit {0})
  require_admin_bearer credentials = elim desk.admin_token [
    | none ↦ err 500
    | some token ↦ if str_eq credentials token then ok tt else err 403
  ]

  unfoldable pub admin_login : String → Action S ℕ SessionCookie
  admin_login token s = elim desk.admin_token [
    | none ↦ (err 500, s)
    | some expected ↦
        if str_eq token expected
        then (
          ok (opened_as desk.token_urlsafe),
          redis.set_ex (desk.session_key desk.token_urlsafe) 1 session_seconds desk.now s,
        )
        else (err 403, s)
  ]

  unfoldable pub admin_logout : Option ℕ → Action S ℕ SessionCookie
  admin_logout none s = (ok deleted_cookie, s)
  admin_logout (some session) s = (ok deleted_cookie, redis.delete (desk.session_key session) s)
