-- ===== src/Auth/Verification.antt =====
-- backend/app/services/email_verification.py and password_reset.py, with the endpoints of
-- backend/app/routers/auth.py that decide what is committed.
use pdftalk.Prelude.{
  ℕ, ◌+◌, String, Bool, true, none, some, [], ◌∷◌, ◌++◌, ltb, ◌==◌, if◌then◌else◌, str_eq, ◌*◌,
}
use pdftalk.Auth.{
  Error, Service, Env, commit, get_db, User, MailedToken, on_refresh_tokens, on_users,
  on_verifications, on_resets, enqueue, is_user, verification, password_reset,
  invalid_verification_token, expired_verification_token, invalid_reset_token, empty_password,
}
use pdftalk.Prelude.Action.{pure, raise, ◌>>=◌, ◌>>◌, catch, ok, err}
use pdftalk.Prelude.Table.{find, delete, update, count}

abbrev pub verification_ttl_seconds : ℕ
verification_ttl_seconds = 24 * 3600

abbrev pub reset_ttl_seconds : ℕ
reset_ttl_seconds = 1 * 3600

abbrev pub of_user : ℕ → MailedToken → Bool
of_user u t = t.user_id == u

abbrev pub has_mailed_hash : ℕ → MailedToken → Bool
has_mailed_hash h t = t.token_hash == h

abbrev pub has_mailed_id : ℕ → MailedToken → Bool
has_mailed_id i t = t.id == i

abbrev pub new_token : Env → ℕ → ℕ → MailedToken
new_token env user_id ttl = record {
  id = env.row_id;
  user_id = user_id;
  token_hash = env.hash_token env.token_urlsafe;
  expires_at = env.now + ttl;
}

unfoldable pub generate_and_store_verification_token : Env → ℕ → Service ℕ
generate_and_store_verification_token env user_id = do
  on_verifications (delete (of_user user_id))
  on_verifications (λ ts. ts ++ new_token env user_id verification_ttl_seconds ∷ [])
  pure env.token_urlsafe

unfoldable pub send_verification_email_for_user : Env → ℕ → String → Service (Unit {0})
send_verification_email_for_user env user_id email = do
  raw_token ← generate_and_store_verification_token env user_id
  enqueue (verification email raw_token)

-- The branches of `verify_token` on a row that was found.
unfoldable pub consume_verification : Env → MailedToken → Service ℕ
consume_verification env row =
    if ltb row.expires_at env.now
    then (do on_verifications (delete (has_mailed_id row.id)); raise expired_verification_token)
    else (do
      on_verifications (delete (has_mailed_id row.id))
      on_users (update (is_user row.user_id) (λ u. record u { is_verified = true }))
      pure row.user_id)

unfoldable pub verify_token : Env → ℕ → Service ℕ
unfolding consume_verification
verify_token env raw_token s =
    elim (find (has_mailed_hash (env.hash_token raw_token)) s.live.email_verifications) [
      | none ↦ (err invalid_verification_token, s)
      | some row ↦ consume_verification env row s
    ]

unfoldable pub purge_expired_tokens : Env → Service ℕ
purge_expired_tokens env s = (
  ok (count (λ t. ltb t.expires_at env.now) s.live.email_verifications),
  record s {
    live = record s.live {
      email_verifications = delete (λ t. ltb t.expires_at env.now) s.live.email_verifications;
    };
  },
)

-- Where `GET /auth/verify-email` redirects.
pub data Redirect : Type 0 where
  to_login to_invalid_token to_token_expired : Redirect

-- `except ValueError`, by the words of the message.
abbrev pub error_slug : Error → Service Redirect
error_slug invalid_verification_token = pure to_invalid_token
error_slug expired_verification_token = pure to_token_expired
error_slug e = raise e

unfoldable pub verify_email : Env → ℕ → Service Redirect
verify_email env token = catch (do verify_token env token; commit; pure to_login) error_slug

-- The branch of a verified user.
unfoldable pub start_reset : Env → User → Service (Unit {0})
start_reset env user = do
  on_resets (delete (of_user user.id))
  on_resets (λ ts. ts ++ new_token env user.id reset_ttl_seconds ∷ [])
  enqueue (password_reset user.email env.token_urlsafe)
  commit

unfoldable pub initiate_password_reset : Env → String → Service (Unit {0})
unfolding start_reset
initiate_password_reset env email s =
    elim (find (λ u. str_eq u.email_lower (env.lower (env.strip email))) s.live.users) [
      | none ↦ (ok tt, s)
      | some user ↦
          (if user.is_verified
              then start_reset env user
              else (do send_verification_email_for_user env user.id user.email; commit))
            s
    ]

-- `hash_password` refuses an empty password.
unfoldable pub hash_new_password : Env → String → Service ℕ
hash_new_password env plain =
    if str_eq plain "" then raise empty_password else pure (env.hash_password plain)

-- The branches of `consume_reset_token` on a row that was found.
unfoldable pub consume_reset : Env → MailedToken → String → Service ℕ
unfolding hash_new_password
consume_reset env row new_password s =
    if ltb row.expires_at env.now
    then (do on_resets (delete (has_mailed_id row.id)); raise invalid_reset_token) s
    else elim (find (is_user row.user_id) s.live.users) [
      | none ↦ (err invalid_reset_token, s)
      | some user ↦
          (do
            h ← hash_new_password env new_password
            on_users (update (is_user user.id) (λ u. record u { password_hash = h }))
            on_resets (delete (has_mailed_id row.id))
            on_refresh_tokens (delete (λ t. t.user_id == row.user_id))
            pure user.id)
            s
    ]

unfoldable pub consume_reset_token : Env → ℕ → String → Service ℕ
unfolding consume_reset
consume_reset_token env raw_token new_password s =
    elim (find (has_mailed_hash (env.hash_token raw_token)) s.live.password_resets) [
      | none ↦ (err invalid_reset_token, s)
      | some row ↦ consume_reset env row new_password s
    ]

-- `POST /auth/reset-password`, in its session.
unfoldable pub reset_password : Env → ℕ → String → Service (Unit {0})
reset_password env token new_password =
    get_db (do consume_reset_token env token new_password; commit)
