-- ===== src/Auth/Renewal.antt =====
-- From a login to the next access token (backend/app/routers/auth.py).
use pdftalk.Prelude.{
  ap, ℕ, ◌+◌, ◌*◌, ◌≤◌, String, ◌≡◌, refl, ◌∙◌, inl, inr, none, some, List, [], ◌∷◌, ◌++◌, arith,
  ==_refl, Option-cases,
}
use pdftalk.Auth.{Service, get_db, Error, State, User, RefreshToken, Env}
use pdftalk.Auth.Rotation.{rotate_first_use, later, new_refresh_token}
use pdftalk.Auth.Session.{ok-cancel, ok-err}
use pdftalk.Auth.Endpoints.{
  logged_in, on_invalid, Answer, rotated, renewed, refresh, login_endpoint,
}
use pdftalk.Prelude.Action.{
  Result, ◌>>=◌, catch, Result-cases, bind_ok, bind_err, catch_ok, err, ok,
}
use pdftalk.Auth.Tokens.{
  access_token_expire_seconds, Claims, create_access_token, store_refresh_token, has_hash,
  validate_and_rotate_refresh_token, issue_token_pair,
}
use pdftalk.Auth.Login.{count_success, login}
use pdftalk.Auth.Lockout.{account}
use pdftalk.Prelude.Table.{find, find-append-none}

abbrev access_token_for : Env → User → Claims × ℕ × ℕ × User
access_token_for env u = (
  create_access_token env u.id,
  env.token_urlsafe,
  access_token_expire_seconds,
  count_success env u,
)

login_issues :
    (env : Env) (email password : String) (s : State) (r : Claims × ℕ × ℕ × User)
    → (login env email password s).0 ≡ ok r
    → (u : User) × (r ≡ (
      create_access_token env u.id,
      env.token_urlsafe,
      access_token_expire_seconds,
      count_success env u,
    ))
      × ((login env email password s).1.live.refresh_tokens
          ≡ s.live.refresh_tokens ++ new_refresh_token env u.id ∷ [])
unfolding login issue_token_pair store_refresh_token create_access_token
login_issues env email password s r h = elim (Option-cases (account env email s)) [
  | inl missing ↦ absurd (ground arith)
  | inr (u, found) ↦ (u, ground arith, ground arith)
]

found_when_new :
    (env : Env) (u : ℕ) (ts : List RefreshToken)
    → find (has_hash (env.hash_token env.token_urlsafe)) ts ≡ none
    → find (has_hash (env.hash_token env.token_urlsafe)) (ts ++ new_refresh_token env u ∷ [])
      ≡ some (new_refresh_token env u)
found_when_new env u ts fresh =
    let h = env.hash_token env.token_urlsafe in
    let same : find (has_hash h) (new_refresh_token env u ∷ []) ≡ some (new_refresh_token env u) =
      rw (==_refl h) refl in
    find-append-none (has_hash h) ts (new_refresh_token env u ∷ []) fresh ∙ same

get_db-runs :
    {A : Type 0} (m : Service A) (s t : State) (r : Result Error A)
    → m s ≡ (r, t)
    → get_db m s ≡ get_db (λ x. (r, t)) s
get_db-runs {A} m s t r h =
    ap
      (λ (p : Result Error A × State). elim p.0 [
        | ok a ↦ (Result.ok a, record p.1 { saved = p.1.live })
        | err e ↦ (err e, record p.1 { live = p.1.saved })
      ])
      h

refresh_runs :
    (env : Env) (raw : ℕ) (s : State) (pair : Claims × ℕ)
    → (validate_and_rotate_refresh_token env raw s).0 ≡ ok pair
    → (refresh env (some raw) s).0 ≡ ok (rotated pair)
unfolding refresh
refresh_runs env raw s pair issued =
    let m = validate_and_rotate_refresh_token env raw in
    let t = (m s).1 in
    let k : Claims × ℕ → Service Answer = λ p x. (ok (rotated p), x) in
    let goes = bind_ok m k s t pair (ap (λ (r : Result Error (Claims × ℕ)). (r, t)) issued) in
    let answers = catch_ok (m >>= k) (on_invalid 401) s t (rotated pair) goes in
    ap (λ r. r.0) (get_db-runs (catch (m >>= k) (on_invalid 401)) s t (ok (rotated pair)) answers)

login_endpoint-tokens :
    (env : Env) (email password : String) (s : State) (ans : Answer)
    → (login_endpoint env email password s).0 ≡ ok ans
    → (u : User) × (ans.shown ≡ some (u.id, u.email))
      × (ans.cookie ≡ renewed env.token_urlsafe)
      × ((login_endpoint env email password s).1.live.refresh_tokens
          ≡ s.live.refresh_tokens ++ new_refresh_token env u.id ∷ [])
unfolding login_endpoint
login_endpoint-tokens env email password s ans h =
    let m = login env email password in
    let t = (m s).1 in
    let k : Claims × ℕ × ℕ × User → Service Answer = λ r x. (ok (logged_in r), x) in
    elim (Result-cases (m s).0) [
      | inl (e, failed) ↦
          let stops =
            bind_err m k s t e (ap (λ (r : Result Error (Claims × ℕ × ℕ × User)). (r, t)) failed) in
          absurd (ok-err _ ans e h (ap (λ r. r.0) (get_db-runs (m >>= k) s t (err e) stops)))
      | inr (r, success) ↦
          let goes =
            bind_ok m k s t r (ap (λ (q : Result Error (Claims × ℕ × ℕ × User)). (q, t)) success) in
          let runs = get_db-runs (m >>= k) s t (ok (logged_in r)) goes in
          let (u, is, tokens) = login_issues env email password s r success in
          let same : ans ≡ logged_in (access_token_for env u) =
            ok-cancel _ ans (logged_in r) h (ap (λ x. x.0) runs) ∙ ap logged_in is in
          (
            u,
            ap (λ a. a.shown) same,
            ap (λ a. a.cookie) same,
            ap (λ x. x.1.live.refresh_tokens) runs ∙ tokens,
          )
    ]

-- The cookie of a login renews the session: within seven days of a login that succeeded, its
-- refresh token is exchanged for an access token of the account that the login showed, and for a
-- new cookie. The token's hash must not be stored already.
pub login_then_refresh :
    (env : Env) (email password : String) (s : State) (ans : Answer) (t fresh key : ℕ)
    → (login_endpoint env email password s).0 ≡ ok ans
    → find (has_hash (env.hash_token env.token_urlsafe)) s.live.refresh_tokens ≡ none
    → t ≤ env.now + 7 * 24 * 3600
    → let s' = (login_endpoint env email password s).1 in
      let env' = later env t fresh key in
      (i : ℕ) × (e : String) × (ans.shown ≡ some (i, e))
      × (ans.cookie ≡ renewed env.token_urlsafe)
      × ((refresh env' (some env.token_urlsafe) s').0
          ≡ ok (rotated (create_access_token env' i, fresh)))
login_then_refresh env email password s ans t fresh key h unused within =
    let (u, shown, cookie, tokens) = login_endpoint-tokens env email password s ans h in
    let s' = (login_endpoint env email password s).1 in
    let env' = later env t fresh key in
    let row = new_refresh_token env u.id in
    let stored : find (has_hash (env.hash_token env.token_urlsafe)) s'.live.refresh_tokens
        ≡ some row =
      ap (find (has_hash (env.hash_token env.token_urlsafe))) tokens
      ∙ found_when_new env u.id s.live.refresh_tokens unused in
    let first = rotate_first_use env' env.token_urlsafe s' row stored (omega arith) refl in
    (u.id, u.email, shown, cookie, refresh_runs env' env.token_urlsafe s' _ (ap (λ r. r.0) first))
