-- ===== src/Auth/Tokens.antt =====
-- backend/app/auth/tokens.py: the refresh tokens and the checks on a decoded access token.
use pdftalk.Prelude.{
  ℕ, ◌+◌, String, Bool, Option, none, some, [], ◌∷◌, ◌++◌, ltb, ◌==◌, if◌then◌else◌, str_eq, ◌*◌,
}
use pdftalk.Auth.{
  Error, Service, Env, commit, RefreshToken, on_refresh_tokens, token_invalid, token_expired,
}
use pdftalk.Prelude.Action.{Result, pure, raise, ◌>>=◌, ◌>>◌, ok, err}
use pdftalk.Prelude.Table.{find, delete, update, count}

abbrev pub refresh_token_expire_seconds : ℕ
refresh_token_expire_seconds = 7 * 24 * 3600

abbrev pub grace_seconds : ℕ
grace_seconds = 60

abbrev pub access_token_expire_seconds : ℕ
access_token_expire_seconds = 15 * 60

-- The claims of an access token; signing and verifying them is PyJWT's.
pub record Claims : Type 0 where
  pub sub : Option ℕ
  pub exp : ℕ
  pub kind : String

unfoldable pub create_access_token : Env → ℕ → Claims
create_access_token env user_id = record {
  sub = some user_id;
  exp = env.now + access_token_expire_seconds;
  kind = "access";
}

-- What `jwt.decode` answers for a token.
pub data Decoded : Type 0 where
  payload : Claims → Decoded
  expired_signature invalid_token : Decoded

unfoldable pub decode_access_token : Decoded → Result Error ℕ
decode_access_token expired_signature = err token_expired
decode_access_token invalid_token = err token_invalid
decode_access_token (payload c) =
    if str_eq c.kind "access"
    then elim c.sub [ none ↦ err token_invalid | some user_id ↦ ok user_id ]
    else err token_invalid

unfoldable pub store_refresh_token : Env → ℕ → Service ℕ
store_refresh_token env user_id = do
  on_refresh_tokens λ ts.
      ts
      ++ record {
        id = env.row_id;
        user_id = user_id;
        token_hash = env.hash_token env.token_urlsafe;
        expires_at = env.now + refresh_token_expire_seconds;
        revoked_at = none;
      }
        ∷ []
  commit
  pure env.token_urlsafe

abbrev pub has_hash : ℕ → RefreshToken → Bool
has_hash h t = t.token_hash == h

abbrev pub has_id : ℕ → RefreshToken → Bool
has_id i t = t.id == i

-- Delete the row, commit, and refuse.
unfoldable pub drop_token : RefreshToken → Service (Claims × ℕ)
drop_token t = do on_refresh_tokens (delete (has_id t.id)); commit; raise token_invalid

unfoldable pub issue : Env → ℕ → Service (Claims × ℕ)
issue env user_id = do
  new_raw_refresh ← store_refresh_token env user_id
  pure (create_access_token env user_id, new_raw_refresh)

-- The rotation of a row that was found.
unfoldable pub rotate : Env → RefreshToken → Service (Claims × ℕ)
unfolding drop_token issue
rotate env stored =
    if ltb stored.expires_at env.now then drop_token stored else elim stored.revoked_at [
      | some revoked_at ↦
          if ltb (revoked_at + grace_seconds) env.now
          then drop_token stored
          else issue env stored.user_id
      | none ↦ do
        on_refresh_tokens (update (has_id stored.id) (λ t. record t { revoked_at = some env.now }))
        issue env stored.user_id
    ]

unfoldable pub validate_and_rotate_refresh_token : Env → ℕ → Service (Claims × ℕ)
unfolding rotate
validate_and_rotate_refresh_token env raw_token s =
    elim (find (has_hash (env.hash_token raw_token)) s.live.refresh_tokens) [
      | none ↦ (err token_invalid, s)
      | some stored ↦ rotate env stored s
    ]

unfoldable pub revoke_refresh_token : Env → ℕ → Service (Unit {0})
revoke_refresh_token env raw_token = do
  on_refresh_tokens (delete (has_hash (env.hash_token raw_token)))
  commit

unfoldable pub revoke_all_refresh_tokens : ℕ → Service ℕ
revoke_all_refresh_tokens user_id s =
    let live' = record s.live {
      refresh_tokens = delete (λ t. t.user_id == user_id) s.live.refresh_tokens;
    } in
    (
      ok (count (λ t. t.user_id == user_id) s.live.refresh_tokens),
      record s { live = live'; saved = live' },
    )

unfoldable pub issue_token_pair : Env → ℕ → Service (Claims × ℕ × ℕ)
issue_token_pair env user_id = do
  raw_refresh_token ← store_refresh_token env user_id
  pure (create_access_token env user_id, raw_refresh_token, access_token_expire_seconds)
