-- ===== src/Auth/Rotation.antt =====
-- The life of a refresh token.
use pdftalk.Auth.Tokens.{
  drop_token, issue, rotate, Claims, revoke_refresh_token, revoke_all_refresh_tokens,
  refresh_token_expire_seconds, create_access_token, store_refresh_token, has_hash, has_id,
  validate_and_rotate_refresh_token,
}
use pdftalk.Prelude.{
  refl, ap, ◌≢◌, inl, inr, ◌==◌, ==_refl, Option-cases, ℕ, ◌+◌, ◌≤◌, ◌<◌, ◌≡◌, ◌⊎◌, none, some,
  List, [], ◌∷◌, ◌++◌, arith,
}
use pdftalk.Prelude.Table.{
  find-delete_self, find-append-some, find-update_self, find, delete, update,
}
use pdftalk.Auth.{State, Env, RefreshToken, token_invalid}
use pdftalk.Prelude.Action.{ok, err}

abbrev pub new_refresh_token : Env → ℕ → RefreshToken
new_refresh_token env user_id = record {
  id = env.row_id;
  user_id = user_id;
  token_hash = env.hash_token env.token_urlsafe;
  expires_at = env.now + refresh_token_expire_seconds;
  revoked_at = none;
}

abbrev pub revoke_at : ℕ → RefreshToken → RefreshToken
revoke_at t r = record r { revoked_at = some t }

abbrev pub with_tokens : List RefreshToken → State → State
with_tokens ts s =
    let store = record s.live { refresh_tokens = ts } in record s { saved = store; live = store }

module _ (env : Env) (raw : ℕ) (s : State) (row : RefreshToken) where
  abbrev pub Stored : Type 0
  Stored = find (has_hash (env.hash_token raw)) s.live.refresh_tokens ≡ some row

  -- The first use of a token that has not expired issues a pair for its user, marks the row as
  -- revoked now, stores the new token's hash, and commits.
  pub rotate_first_use :
      Stored
      → env.now ≤ row.expires_at
      → row.revoked_at ≡ none
      → validate_and_rotate_refresh_token env raw s ≡ (
        ok (create_access_token env row.user_id, env.token_urlsafe),
        with_tokens
            (update (has_id row.id) (revoke_at env.now) s.live.refresh_tokens
              ++ new_refresh_token env row.user_id ∷ [])
            s,
      )
  unfolding validate_and_rotate_refresh_token store_refresh_token
  rotate_first_use found fresh unused = ground arith

  -- A revoked token that has not expired still issues a pair for 60 seconds; its row stays as it is.
  rotate_grace :
      (t : ℕ)
      → Stored
      → env.now ≤ row.expires_at
      → row.revoked_at ≡ some t
      → env.now ≤ t + 60
      → validate_and_rotate_refresh_token env raw s ≡ (
        ok (create_access_token env row.user_id, env.token_urlsafe),
        with_tokens (s.live.refresh_tokens ++ new_refresh_token env row.user_id ∷ []) s,
      )
  unfolding validate_and_rotate_refresh_token store_refresh_token
  rotate_grace t found fresh used within = ground arith

  -- A token that has expired, or was revoked more than 60 seconds ago, is refused and its row is
  -- deleted for good.
  rotate_refuses :
      Stored
      → (row.expires_at < env.now) ⊎ ((t : ℕ) × (row.revoked_at ≡ some t) × (t + 60 < env.now))
      → validate_and_rotate_refresh_token env raw s
        ≡ (err token_invalid, with_tokens (delete (has_id row.id) s.live.refresh_tokens) s)
  unfolding validate_and_rotate_refresh_token
  rotate_refuses found stale = ground arith

-- The same process at a later time, with new random values.
abbrev pub later : Env → ℕ → ℕ → ℕ → Env
later env t fresh key = record env { now = t; token_urlsafe = fresh; row_id = key }

found_after_use :
    (env : Env) (raw : ℕ) (s : State) (row : RefreshToken)
    → Stored env raw s row
    → find (has_hash (env.hash_token raw)) (
        update (has_id row.id) (revoke_at env.now) s.live.refresh_tokens
        ++ new_refresh_token env row.user_id ∷ [])
      ≡ some (revoke_at env.now row)
found_after_use env raw s row found =
    find-append-some _ (update (has_id row.id) (revoke_at env.now) s.live.refresh_tokens) _ _ (
      find-update_self _ (has_id row.id) (revoke_at env.now) s.live.refresh_tokens row (λ y. refl)
        found (==_refl row.id))

-- A token used once, before it expired, issues another pair to whoever presents it again within 60 seconds, while it
-- has not expired: the rotation is not strictly one-time.
pub reuse_window :
    (env : Env) (raw : ℕ) (s : State) (row : RefreshToken) (t fresh key : ℕ)
    → Stored env raw s row
    → env.now ≤ row.expires_at
    → row.revoked_at ≡ none
    → t ≤ env.now + 60
    → t ≤ row.expires_at
    → let s' = (validate_and_rotate_refresh_token env raw s).1 in
      (validate_and_rotate_refresh_token (later env t fresh key) raw s').0
      ≡ ok (create_access_token (later env t fresh key) row.user_id, fresh)
reuse_window env raw s row t fresh key found live unused near valid =
    rw (rotate_first_use env raw s row found live unused) (
      ap (λ p. p.0)
        (rotate_grace (later env t fresh key) raw _ (revoke_at env.now row) env.now
          (found_after_use env raw s row found) valid refl near))

-- A token used once, before it expired, is refused to whoever presents it more than 60 seconds
-- later.
pub reuse_refused :
    (env : Env) (raw : ℕ) (s : State) (row : RefreshToken) (t fresh key : ℕ)
    → Stored env raw s row
    → env.now ≤ row.expires_at
    → row.revoked_at ≡ none
    → env.now + 60 < t
    → let s' = (validate_and_rotate_refresh_token env raw s).1 in
      (validate_and_rotate_refresh_token (later env t fresh key) raw s').0 ≡ err token_invalid
reuse_refused env raw s row t fresh key found live unused past =
    rw (rotate_first_use env raw s row found live unused) (
      ap (λ p. p.0)
        (rotate_refuses (later env t fresh key) raw _ (revoke_at env.now row)
          (found_after_use env raw s row found) (inr (env.now, refl, past))))

-- After a logout the presented token is refused at any later time.
logout_kills :
    (env : Env) (raw t fresh key : ℕ) (s : State)
    → let s' = (revoke_refresh_token env raw s).1 in
      validate_and_rotate_refresh_token (later env t fresh key) raw s' ≡ (err token_invalid, s')
unfolding revoke_refresh_token validate_and_rotate_refresh_token
logout_kills env raw t fresh key s =
    rw
      (
        find-delete_self (has_hash (env.hash_token raw)) s.live.refresh_tokens,
        validate_and_rotate_refresh_token,
      )
      refl

found_row_user :
    (h u : ℕ) (ts : List RefreshToken) (row : RefreshToken)
    → find (has_hash h) (delete (λ t. t.user_id == u) ts) ≡ some row
    → row.user_id ≢ u
found_row_user h u [] row e = ground arith
found_row_user h u (t ∷ ts) row e = ground (arith, found_row_user h u ts row)

-- After "sign out of all devices" no refresh token issues an access token for that user.
pub revoke_all_kills :
    (env : Env) (u raw : ℕ) (s : State) (r : Claims × ℕ)
    → (validate_and_rotate_refresh_token env raw (revoke_all_refresh_tokens u s).1).0 ≡ ok r
    → r.0.sub ≢ some u
unfolding revoke_all_refresh_tokens validate_and_rotate_refresh_token rotate drop_token issue
    store_refresh_token create_access_token
revoke_all_kills env u raw s r e =
    elim (Option-cases
      (find (has_hash (env.hash_token raw)) (delete (λ t. t.user_id == u) s.live.refresh_tokens))) [
        | inl missing ↦ ground arith
        | inr (row, found) ↦
            ground (arith, found_row_user (env.hash_token raw) u s.live.refresh_tokens row found)
      ]
