-- ===== src/Auth/Single.antt =====
-- The mailed tokens: each works once, within its time, and what a request with an expired one
-- leaves.
use pdftalk.Prelude.{
  ℕ, ◌≤◌, ◌<◌, String, ◌≡◌, inl, inr, true, false, none, some, List, [], ◌∷◌, arith, ◌==◌,
  Bool-cases, str_eq,
}
use pdftalk.Auth.{get_db, State, Env, User, MailedToken, is_user, invalid_reset_token}
use pdftalk.Auth.Verification.{
  to_token_expired, has_mailed_hash, has_mailed_id, verify_token, verify_email, consume_reset_token,
  reset_password, to_login, to_invalid_token,
}
use pdftalk.Prelude.Action.{ok, err}
use pdftalk.Prelude.Table.{find, delete, update, find-delete-none}

-- `token_hash` is a unique column.
abbrev pub IsUnique : List MailedToken → Type 0
IsUnique [] = Unit {0}
IsUnique (t ∷ ts) = (find (has_mailed_hash t.token_hash) ts ≡ none) × IsUnique ts

find-delete_found :
    (h : ℕ) (ts : List MailedToken) (row : MailedToken)
    → IsUnique ts
    → find (has_mailed_hash h) ts ≡ some row
    → find (has_mailed_hash h) (delete (has_mailed_id row.id) ts) ≡ none
find-delete_found h [] row u e = cc
find-delete_found h (t ∷ ts) row u e = elim (Bool-cases (t.token_hash == h)) [
  | inl hit ↦ ground (arith, find-delete-none (has_mailed_hash h) (has_mailed_id row.id) ts)
  | inr miss ↦ ground (arith, find-delete_found h ts row u.1)
]

abbrev pub at_time : Env → ℕ → Env
at_time env t = record env { now = t }

verify_email_unknown :
    (env : Env) (raw : ℕ) (s : State)
    → find (has_mailed_hash (env.hash_token raw)) s.live.email_verifications ≡ none
    → verify_email env raw s ≡ (ok to_invalid_token, s)
unfolding verify_email verify_token
verify_email_unknown env raw s missing = ground arith

module _ (env : Env) (raw : ℕ) (s : State) (row : MailedToken) where
  -- A verification link that has not expired verifies exactly its user, deletes its row, commits
  -- and redirects to the login.
  verify_email_accepts :
      find (has_mailed_hash (env.hash_token raw)) s.live.email_verifications ≡ some row
      → env.now ≤ row.expires_at
      → let store = record s.live {
        email_verifications = delete (has_mailed_id row.id) s.live.email_verifications;
        users = update (is_user row.user_id) (λ u. record u { is_verified = true }) s.live.users;
      } in
        verify_email env raw s ≡ (ok to_login, record s { saved = store; live = store })
  unfolding verify_email verify_token
  verify_email_accepts found fresh = ground arith

  -- With hashes that are unique, a link that has not expired works once: used at any time again,
  -- the same token is unknown, and nothing changes.
  pub verify_email_twice :
      (t : ℕ)
      → IsUnique s.live.email_verifications
      → find (has_mailed_hash (env.hash_token raw)) s.live.email_verifications ≡ some row
      → env.now ≤ row.expires_at
      → let s' = (verify_email env raw s).1 in
        verify_email (at_time env t) raw s' ≡ (ok to_invalid_token, s')
  unfolding verify_email verify_token
  verify_email_twice t unique found fresh = rw (verify_email_accepts found fresh) (
      verify_email_unknown (at_time env t) raw _
        (find-delete_found (env.hash_token raw) s.live.email_verifications row unique found))

  -- A reset link that has not expired sets the hash of a new password that is not empty for its user, signs the user
  -- out everywhere, deletes its row, and commits.
  reset_password_accepts :
      (user : User) (new_password : String)
      → find (has_mailed_hash (env.hash_token raw)) s.live.password_resets ≡ some row
      → find (is_user row.user_id) s.live.users ≡ some user
      → env.now ≤ row.expires_at
      → str_eq new_password "" ≡ false
      → let store = record s.live {
        users =
            update
              (is_user user.id)
              (λ u. record u { password_hash = env.hash_password new_password })
              s.live.users;
        password_resets = delete (has_mailed_id row.id) s.live.password_resets;
        refresh_tokens = delete (λ r. r.user_id == row.user_id) s.live.refresh_tokens;
      } in
        reset_password env raw new_password s ≡ (ok tt, record s { saved = store; live = store })
  unfolding reset_password consume_reset_token
  reset_password_accepts user new_password found of fresh filled = ground arith

  -- A reset link that has expired is refused. The row's deletion is rolled back with the request,
  -- so the expired row stays in the database, unlike an expired verification link's.
  pub reset_password_expired :
      (new_password : String)
      → find (has_mailed_hash (env.hash_token raw)) s.live.password_resets ≡ some row
      → row.expires_at < env.now
      → reset_password env raw new_password s
        ≡ (err invalid_reset_token, record s { live = s.saved })
  unfolding reset_password consume_reset_token
  reset_password_expired new_password found late = ground arith

  -- An expired verification link is refused with its own slug, and its row is deleted for good.
  verify_email_expired :
      find (has_mailed_hash (env.hash_token raw)) s.live.email_verifications ≡ some row
      → row.expires_at < env.now
      → let store = record s.live {
        email_verifications = delete (has_mailed_id row.id) s.live.email_verifications;
      } in
        get_db (verify_email env raw) s
        ≡ (ok to_token_expired, record s { saved = store; live = store })
  unfolding verify_email verify_token
  verify_email_expired found late = ground arith
