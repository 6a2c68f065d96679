-- ===== src/Auth/Session.antt =====
-- Sessions across the endpoints (backend/app/routers/auth.py, backend/app/auth/dependencies.py).
use pdftalk.Prelude.{
  sym, ap, ◌≢◌, refl, Bool-cases, ◌⊎◌, Option, none, ℕ, ◌≡◌, ◌↔◌, inl, inr, true, some, arith,
  Option-cases,
}
use mathlib.Core.Path.{subst}
use pdftalk.Auth.{
  token_invalid, token_expired, invalid_verification_token, expired_verification_token,
  invalid_reset_token, invalid_credentials, unverified_email, empty_password, Service, get_db,
  Error, State, Env, User, Store, is_user,
}
use pdftalk.Auth.Endpoints.{
  bare, cookie_path, bearer_path, left_alone, forgotten, on_invalid, restore, user_of, Answer,
  account_of, known_account, restored_account, get_me, get_current_user, get_verified_user,
}
use pdftalk.Prelude.Action.{
  ◌>>=◌, bind_ok, bind_err, catch_ok, catch_err, err, Result, Result-cases, ok,
}
use pdftalk.Auth.Tokens.{
  validate_and_rotate_refresh_token, Claims, payload, Decoded, decode_access_token,
}
use pdftalk.Prelude.Table.{find}

-- A request is let in as a user exactly when its bearer token decodes to the id of an account that
-- is there, active and verified.
pub get_verified_user_iff :
    (token : Decoded) (db : Store) (u : User)
    → (get_verified_user (some token) db ≡ ok u) ↔ (
        (i : ℕ) × (decode_access_token token ≡ ok i)
        × (find (is_user i) db.users ≡ some u)
        × (u.is_active ≡ true)
        × (u.is_verified ≡ true))
unfolding get_verified_user get_current_user
get_verified_user_iff token db u = elim (Result-cases (decode_access_token token)) [
  | inl (e, refused) ↦ (λ h. absurd (ground arith), λ (i, d, f, a, v). absurd (ground arith))
  | inr (i, decoded) ↦ elim (Option-cases (find (is_user i) db.users)) [
    | inl missing ↦ (λ h. absurd (ground arith), λ (j, d, f, a, v). absurd (ground arith))
    | inr (x, found) ↦ (
      λ h. (i, decoded, ground arith, ground arith, ground arith),
      λ (j, d, f, a, v). ground arith,
    )
  ]
]

-- An answer that tells nothing, or shows an account of the table that is active and verified.
abbrev pub Shows : Store → Answer → Type 0
Shows db ans =
    ((ans.status ≡ 204) × (ans.shown ≡ none) × (ans.access ≡ none))
    ⊎ ((ans.status ≡ 200)
        × ((u : User) × (i : ℕ) × (find (is_user i) db.users ≡ some u)
            × (ans.shown ≡ some (account_of u))
            × (u.is_active ≡ true)
            × (u.is_verified ≡ true)))

known_account-Shows : (db : Store) (i : ℕ) → Shows db (known_account (find (is_user i) db.users))
unfolding known_account
known_account-Shows db i = elim (Option-cases (find (is_user i) db.users)) [
  | inl missing ↦ rw missing (inl (refl, refl, refl))
  | inr (u, found) ↦ elim (Bool-cases u.is_active) [
    | inr inactive ↦ inl (ground arith, ground arith, ground arith)
    | inl active ↦ elim (Bool-cases u.is_verified) [
      | inr unverified ↦ inl (ground arith, ground arith, ground arith)
      | inl verified ↦ inr (ground arith, (u, i, found, ground arith, active, verified))
    ]
  ]
]

restored_account-Shows :
    (db : Store) (pair : Claims × ℕ) → Shows db (restored_account pair (user_of pair.0 db))
unfolding restored_account user_of
restored_account-Shows db (access, raw) =
    elim (Result-cases (decode_access_token (payload access))) [
      | inl (e, refused) ↦ inl (ground arith, ground arith, ground arith)
      | inr (i, decoded) ↦ elim (Option-cases (find (is_user i) db.users)) [
        | inl missing ↦ inl (ground arith, ground arith, ground arith)
        | inr (u, found) ↦ elim (Bool-cases u.is_active) [
          | inr inactive ↦ inl (ground arith, ground arith, ground arith)
          | inl active ↦ elim (Bool-cases u.is_verified) [
            | inr unverified ↦ inl (ground arith, ground arith, ground arith)
            | inl verified ↦ inr (ground arith, (u, i, found, ground arith, active, verified))
          ]
        ]
      ]
    ]

pub ok-cancel : (r : Result Error Answer) (a b : Answer) → r ≡ ok a → r ≡ ok b → a ≡ b
ok-cancel r a b h k = cc

pub ok-err : (r : Result Error Answer) (a : Answer) (e : Error) → r ≡ ok a → r ≢ err e
ok-err r a e h k = cc

get_db_ok :
    {A : Type 0} (m : Service A) (s : State) (a : A)
    → (get_db m s).0 ≡ ok a
    → ((m s).0 ≡ ok a) × ((get_db m s).1.live ≡ (m s).1.live)
get_db_ok m s a h = elim (Result-cases (m s).0) [
  | inl (e, failed) ↦ absurd (ground arith)
  | inr (b, fine) ↦ (ground arith, ground arith)
]

-- Of an outcome: its answer, if there is one, shows what the table after it holds.
abbrev pub Tells : Result Error Answer × State → Type 0
Tells r = (ans : Answer) → r.0 ≡ ok ans → Shows r.1.live ans

ok-Tells : (ans : Answer) (t : State) → Shows t.live ans → Tells (ok ans, t)
ok-Tells ans t h b e = subst (Shows t.live) (ok-cancel (ok ans) ans b refl e) h

err-Tells : (e : Error) (t : State) → Tells (err e, t)
err-Tells e t b h = absurd (ok-err (err e) b e h refl)

on_invalid-Tells : (e : Error) (t : State) → Tells (on_invalid 204 e t)
on_invalid-Tells token_invalid t = ok-Tells (bare 204 forgotten) t (inl (refl, refl, refl))
on_invalid-Tells token_expired t = err-Tells token_expired t
on_invalid-Tells invalid_verification_token t = err-Tells invalid_verification_token t
on_invalid-Tells expired_verification_token t = err-Tells expired_verification_token t
on_invalid-Tells invalid_reset_token t = err-Tells invalid_reset_token t
on_invalid-Tells invalid_credentials t = err-Tells invalid_credentials t
on_invalid-Tells unverified_email t = err-Tells unverified_email t
on_invalid-Tells empty_password t = err-Tells empty_password t

restore-Tells : (env : Env) (raw : ℕ) (s : State) → Tells (restore env raw s)
unfolding restore
restore-Tells env raw s =
    let m = validate_and_rotate_refresh_token env raw in
    let k : Claims × ℕ → Service Answer =
      λ pair t. (ok (restored_account pair (user_of pair.0 t.live)), t) in
    let t = (m s).1 in
    elim (Result-cases (m s).0) [
      | inl (e, refused) ↦
          let stops = bind_err m k s t e (ap (λ (r : Result Error (Claims × ℕ)). (r, t)) refused) in
          subst Tells (sym (catch_err (m >>= k) (on_invalid 204) s t e stops))
            (on_invalid-Tells e t)
      | inr (pair, issued) ↦
          let ans = restored_account pair (user_of pair.0 t.live) in
          let goes = bind_ok m k s t pair (ap (λ (r : Result Error (Claims × ℕ)). (r, t)) issued) in
          subst Tells (sym (catch_ok (m >>= k) (on_invalid 204) s t ans goes))
            (ok-Tells ans t (restored_account-Shows t.live pair))
    ]

cookie_path-Tells : (env : Env) (cookie : Option ℕ) (s : State) → Tells (cookie_path env cookie s)
cookie_path-Tells env none s = ok-Tells (bare 204 left_alone) s (inl (refl, refl, refl))
cookie_path-Tells env (some raw) s = restore-Tells env raw s

get_db-Tells : (m : Service Answer) (s : State) → Tells (m s) → Tells (get_db m s)
get_db-Tells m s tells ans h =
    let (fine, same) = get_db_ok m s ans h in
    subst (λ (db : Store). Shows db ans) (sym same) (tells ans fine)

bearer_path-Tells :
    (env : Env) (token : Decoded) (cookie : Option ℕ) (s : State)
    → Tells (bearer_path env token cookie s)
bearer_path-Tells env token cookie s = elim (Result-cases (decode_access_token token)) [
  | inl (e, refused) ↦ rw (refused, bearer_path) (cookie_path-Tells env cookie s)
  | inr (i, decoded) ↦
      rw (decoded, bearer_path)
        (ok-Tells (known_account (find (is_user i) s.live.users)) s (known_account-Shows s.live i))
]

-- What `GET /auth/me` shows is an account that is there, active and verified. It answers 200 when
-- it shows one, and otherwise 204, with no account and no access token.
pub get_me-Shows :
    (env : Env) (bearer : Option Decoded) (cookie : Option ℕ) (s : State) (ans : Answer)
    → (get_me env bearer cookie s).0 ≡ ok ans
    → Shows (get_me env bearer cookie s).1.live ans
unfolding get_me
get_me-Shows env none cookie s =
    get_db-Tells (cookie_path env cookie) s (cookie_path-Tells env cookie s)
get_me-Shows env (some token) cookie s =
    get_db-Tells (bearer_path env token cookie) s (bearer_path-Tells env token cookie s)
