-- ===== src/Admin/Lifetime.antt =====
-- The life of an operator's session (backend/app/routers/internal.py).
use pdftalk.OpenAi.Breaker.{KeepsValue}
use pdftalk.OpenAi.{Redis}
use pdftalk.Prelude.{◌+◌, ◌*◌, ◌<◌, ◌≢◌, true, some, arith, str_eq, ℕ, String, ◌≡◌, none, eq_iff}
use pdftalk.Admin.{
  session_seconds, require_admin_cookie, admin_login, admin_logout, opened_as, Desk,
}
use pdftalk.Prelude.Action.{ok, err}

-- A deleted key has no value.
abbrev pub DeleteForgets : {S : Type 0} → Redis S → Type 0
DeleteForgets {S} redis =
    (key : String) (t : ℕ) (s : S) → redis.get key t (redis.delete key s) ≡ none

-- The same desk at another time.
abbrev pub at_hour : Desk → ℕ → Desk
at_hour desk t = record desk { now = t }

-- Where Redis keeps a value until its TTL and forgets a deleted one: the configured token opens a
-- session whose cookie is accepted for eight hours, and no longer after a logout with it. Any other
-- token is refused with 403 and opens none.
pub admin_session :
    {S : Type 0} (redis : Redis S) (desk : Desk) (expected token : String) (t later_t : ℕ) (s : S)
    → KeepsValue redis
    → DeleteForgets redis
    → desk.admin_token ≡ some expected
    → t < desk.now + 8 * 3600
    → let r = admin_login redis desk token s in
      let cookie = some desk.token_urlsafe in
      let s' = (admin_logout redis (at_hour desk t) cookie r.1).1 in
      (token ≡ expected
        → (r.0 ≡ ok (opened_as desk.token_urlsafe))
          × (require_admin_cookie redis (at_hour desk t) cookie r.1 ≡ ok tt)
          × (require_admin_cookie redis (at_hour desk later_t) cookie s' ≡ err 401))
      × (token ≢ expected → r ≡ (err 403, s))
unfolding admin_login admin_logout require_admin_cookie
admin_session redis desk expected token t later_t s keeps forgets set_up soon =
    let key = desk.session_key desk.token_urlsafe in
    let opened = redis.set_ex key 1 session_seconds desk.now s in
    (
      λ same.
          let e : str_eq token expected ≡ true = ground (arith, eq_iff token expected) in
          (
            ground arith,
            ground (arith, keeps key 1 session_seconds desk.now t s (omega arith)),
            ground (arith, forgets key later_t opened),
          ),
      λ other. ground (arith, eq_iff token expected),
    )
