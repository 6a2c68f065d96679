-- ===== src/Tests/Startup.antt =====
-- Settings of a deployment (backend/app/core/config.py).
use pdftalk.Prelude.{◌≤◌, String, ◌≡◌, refl, true, none, some, [], ◌∷◌, length, All, false}
use pdftalk.Config.{Values, load_settings, is_production, required_fields}
use pdftalk.Config.Production.{load_settings_production, IsGiven}
use pdftalk.Sentinel.{
  Readers, policies, guards, build_sentinel_config, adapt_sentinel_error, app_error, IdentityMode,
}
use pdftalk.Exceptions.{value_error, rate_limit_exceeded}
use pdftalk.Prelude.Action.{err}
use pdftalk.Middleware.{Request, Surroundings, get_client_ip, extract_user_id}
use pdftalk.Logging.{get_key}
use pdftalk.Prelude.Text.{codes}

-- All that a server must give, and no ENVIRONMENT.
abbrev server_env : Values
server_env =
    ("DATABASE_URL", "postgresql://db")
    ∷ ("REDIS_URL", "redis://r")
    ∷ ("JWT_SECRET_KEY", "0123456789abcdef0123456789abcdef")
    ∷ ("FROM_EMAIL", "a@b.c")
    ∷ ("AWS_ACCESS_KEY_ID", "k")
    ∷ ("AWS_SECRET_ACCESS_KEY", "s")
    ∷ ("S3_BUCKET_NAME", "b")
    ∷ ("APP_URL", "https://a.b")
    ∷ []

starts : load_settings none server_env ≡ some server_env
unfolding load_settings
starts = refl

-- With a shorter key the program does not start.
refuses : load_settings none (("JWT_SECRET_KEY", "short") ∷ server_env) ≡ none
unfolding load_settings
refuses = refl

load_settings_production_example :
    ((key w : String) → get_key key server_env ≡ some w → get_key key server_env ≡ some w)
    × (is_production server_env ≡ true
        → (server_env ≡ server_env)
          × All (IsGiven server_env) required_fields
          × (secret : String) × (get_key "JWT_SECRET_KEY" server_env ≡ some secret)
          × (32 ≤ length (codes secret)))
load_settings_production_example =
    load_settings_production none server_env server_env (λ e. refl) starts

-- Every guard names a policy of its own name, with the identity that its factory is for.
abbrev IsCovered : String × IdentityMode → Type 0
IsCovered g = elim (get_key g.0 policies) as (λ o. Type 0) [
  | none ↦ false ≡ true
  | some p ↦ (p.endpoint_id ≡ g.0) × (p.identity ≡ g.1)
]

guards-IsCovered : All IsCovered guards
guards-IsCovered = (
  (refl, refl),
  (
    (refl, refl),
    ((refl, refl), ((refl, refl), ((refl, refl), ((refl, refl), ((refl, refl), tt))))),
  ),
)

abbrev plain : Readers
plain = record { quote = λ t. t; cookie_ttl_seconds = λ v. 2592000; cookie_secure = λ v. true }

-- The settings are accepted without the limiter's, but its module is not loaded then.
limiter_missing : build_sentinel_config plain server_env ≡ err value_error
unfolding build_sentinel_config
limiter_missing = refl

-- A number that is no decimal passes `isdigit` but not `int`.
superscript_two :
    adapt_sentinel_error (record { status_code = 429; retry_after = some (178 ∷ []) })
    ≡ app_error value_error
unfolding adapt_sentinel_error
superscript_two = refl

ninety :
    adapt_sentinel_error (record { status_code = 429; retry_after = some (codes "90") })
    ≡ app_error (rate_limit_exceeded 90)
unfolding adapt_sentinel_error
ninety = refl

abbrev around : Surroundings
around = record {
  uuid4 = "r1";
  elapsed_ms = 12;
  strip = λ t. t;
  decode_token_unverified = λ t. some "u7";
  console_encodes = true;
}

-- Two proxies on the way, none of which names the client.
abbrev proxied : Request
proxied = record {
  method = "GET";
  path = "/documents";
  x_real_ip = some [];
  x_forwarded_for = some (codes "10.0.0.1, 10.0.0.2");
  authorization = some (codes "Bearer t");
  client_host = none;
}

first_address :
    (get_client_ip around proxied ≡ codes "10.0.0.1") × (extract_user_id around proxied ≡ some "u7")
first_address = (refl, refl)
