-- ===== src/Auth/Lockout.antt =====
-- Login: who gets in, and the lockout after ten wrong passwords in a row.
use pdftalk.Prelude.{
  ◌∙◌, ◌+◌, ◌<◌, refl, none, List, [], ◌∷◌, length, ℕ, String, ◌≡◌, ap, inl, inr, true, false,
  Option, some, arith, ==_refl, Option-cases, str_eq,
}
use pdftalk.Auth.Login.{
  max_failed_attempts, has_email, verify_password, is_locked, count_failure, count_success, login,
}
use pdftalk.Auth.{State, Env, User, is_user, invalid_credentials}
use pdftalk.Auth.Tokens.{Claims, create_access_token, store_refresh_token, issue_token_pair}
use pdftalk.Prelude.Action.{ok, err}
use pdftalk.Prelude.Table.{find, update, find-update_self}

-- The row that an email finds.
abbrev pub account : Env → String → State → Option User
account env email s = find (has_email (env.strip (env.lower email))) s.live.users

account_after :
    (env : Env) (email : String) (s : State) (u : User) (f : User → User)
    → ((v : User) → (f v).email_lower ≡ v.email_lower)
    → account env email s ≡ some u
    → find (has_email (env.strip (env.lower email))) (update (is_user u.id) f s.live.users)
      ≡ some (f u)
account_after env email s u f same found =
    find-update_self _ (is_user u.id) f s.live.users u
      (λ v. ap (λ e. str_eq e (env.strip (env.lower email))) (same v)) found (==_refl u.id)

count_failure-email : (env : Env) (v : User) → (count_failure env v).email_lower ≡ v.email_lower
count_failure-email env v = ground arith

-- A login that returns was made for a verified, active account that is not locked, with its
-- password; it resets the failure count and the lock of the row, notes the time, and issues an
-- access token for that account.
pub login_sound :
    (env : Env) (email password : String) (s : State) (r : Claims × ℕ × ℕ × User)
    → (login env email password s).0 ≡ ok r
    → (u : User) × (account env email s ≡ some u)
      × (u.is_verified ≡ true)
      × (u.is_active ≡ true)
      × (is_locked env u ≡ false)
      × (verify_password env password u.password_hash ≡ true)
      × (account env email (login env email password s).1 ≡ some (count_success env u))
      × (r.0.sub ≡ some u.id)
unfolding login issue_token_pair store_refresh_token create_access_token
login_sound env email password s r h = elim (Option-cases (account env email s)) [
  | inl missing ↦ absurd (ground arith)
  | inr (u, found) ↦ (
    u,
    found,
    ground arith,
    ground arith,
    ground arith,
    ground arith,
    ground (arith, account_after env email s u (count_success env) (λ v. refl) found),
    ground arith,
  )
]

-- An attempt with a wrong password on an account that is open.
pub record IsOpen (env : Env) (password : String) (u : User) : Type 0 where
  pub verified : u.is_verified ≡ true
  pub active : u.is_active ≡ true
  pub unlocked : is_locked env u ≡ false
  pub wrong : verify_password env password u.password_hash ≡ false

-- A wrong password on an open account is refused with the error that an unknown email gets, and
-- the row's failure is counted.
login_wrong :
    (env : Env) (email password : String) (s : State) (u : User)
    → account env email s ≡ some u
    → IsOpen env password u
    → ((login env email password s).0 ≡ err invalid_credentials)
      × (account env email (login env email password s).1 ≡ some (count_failure env u))
unfolding login
login_wrong env email password s u found o =
    ground (arith, account_after env email s u (count_failure env) (count_failure-email env) found)

-- The account after a run of attempts, one for each time and password of the list.
abbrev pub at_login : Env → ℕ → Env
at_login env t = record env { now = t }

pub attempts : Env → String → List (ℕ × String) → State → State
attempts env email [] s = s
attempts env email ((t, password) ∷ rest) s =
    attempts env email rest (login (at_login env t) email password s).1

-- Every password of the run is wrong.
abbrev pub AllWrong : Env → ℕ → List (ℕ × String) → Type 0
AllWrong env hash [] = Unit {0}
AllWrong env hash ((t, password) ∷ rest) =
    (verify_password env password hash ≡ false) × AllWrong env hash rest

abbrev pub with_failures : ℕ → User → User
with_failures n u = record u { failed_login_attempts = n }

one_failure :
    (env : Env) (email password : String) (t n : ℕ) (s : State) (u : User)
    → account env email s ≡ some (with_failures n u)
    → u.is_verified ≡ true
    → u.is_active ≡ true
    → u.locked_until ≡ none
    → verify_password env password u.password_hash ≡ false
    → account env email (login (at_login env t) email password s).1
      ≡ some (count_failure (at_login env t) (with_failures n u))
unfolding verify_password
one_failure env email password t n s u found v a l w =
    (login_wrong (at_login env t) email password s (with_failures n u) found
      (record { verified = v; active = a; unlocked = rw l refl; wrong = w })).1

counted :
    (env : Env) (t n : ℕ) (u : User)
    → n + 1 < max_failed_attempts
    → count_failure (at_login env t) (with_failures n u) ≡ with_failures (n + 1) u
counted env t n u h = ground arith

-- A run of fewer than ten wrong passwords from a reset counter only counts them.
failures :
    (env : Env) (email : String) (run : List (ℕ × String)) (n : ℕ) (s : State) (u : User)
    → account env email s ≡ some (with_failures n u)
    → u.is_verified ≡ true
    → u.is_active ≡ true
    → u.locked_until ≡ none
    → AllWrong env u.password_hash run
    → n + length run < max_failed_attempts
    → account env email (attempts env email run s) ≡ some (with_failures (n + length run) u)
unfolding attempts
failures env email [] n s u found v a l w short =
    found ∙ ap (λ k. some (with_failures k u)) (omega arith)
failures env email ((t, password) ∷ rest) n s u found v a l w short =
    failures env email rest (n + 1) (login (at_login env t) email password s).1 u
      (one_failure env email password t n s u found v a l w.0
        ∙ ap {B = Option User} some (counted env t n u (omega arith)))
      v a l w.1 (omega arith)
    ∙ ap (λ k. some (with_failures k u)) (omega arith)

abbrev pub locked_at : ℕ → User → User
locked_at t u = record u { failed_login_attempts = 0; locked_until = some (t + 900) }

reset_counter : (u : User) → u.failed_login_attempts ≡ 0 → u ≡ with_failures 0 u
reset_counter u h = ground arith

locks :
    (env : Env) (t : ℕ) (u : User)
    → count_failure (at_login env t) (with_failures 9 u) ≡ locked_at t u
locks env t u = refl

-- An account that is locked refuses every password until the lock runs out, and nothing changes.
locked_refuses :
    (env : Env) (email password : String) (t : ℕ) (s : State) (u : User)
    → account env email s ≡ some u
    → u.is_verified ≡ true
    → u.locked_until ≡ some t
    → env.now < t
    → login env email password s ≡ (err invalid_credentials, s)
unfolding login
locked_refuses env email password t s u found v l early = ground arith

-- Ten wrong passwords in a row, from a reset counter, lock a verified and active account: until 15
-- minutes after the tenth every attempt is refused and changes nothing, the right password's too.
pub ten_failures_lock :
    (env : Env) (email password : String) (nine : List (ℕ × String)) (t : ℕ) (s : State) (u : User)
    → account env email s ≡ some u
    → u.is_verified ≡ true
    → u.is_active ≡ true
    → u.locked_until ≡ none
    → u.failed_login_attempts ≡ 0
    → length nine ≡ 9
    → AllWrong env u.password_hash nine
    → verify_password env password u.password_hash ≡ false
    → (next : ℕ) (any : String) → next < t + 900
    → let s' = (login (at_login env t) email password (attempts env email nine s)).1 in
      (account env email s' ≡ some (locked_at t u))
      × (login (at_login env next) email any s' ≡ (err invalid_credentials, s'))
ten_failures_lock env email password nine t s u found v a l zero_failures ninth wrong last next any
      early =
    let start : account env email s ≡ some (with_failures 0 u) =
      found ∙ ap {B = Option User} some (reset_counter u zero_failures) in
    let nine_counted = failures env email nine 0 s u start v a l wrong (omega arith) in
    let nine_exact : account env email (attempts env email nine s) ≡ some (with_failures 9 u) =
      nine_counted ∙ ap (λ k. some (with_failures k u)) (omega arith) in
    let tenth =
      one_failure env email password t 9 (attempts env email nine s) u nine_exact v a l last in
    (
      tenth,
      locked_refuses (at_login env next) email any (t + 900) _ (locked_at t u) tenth v refl early,
    )
