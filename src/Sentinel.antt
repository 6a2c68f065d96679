-- ===== src/Sentinel.antt =====
-- backend/app/core/sentinel.py: the configuration of the rate limiter, and how its refusals become
-- exceptions of the application. The limiter itself is a package: its dependency is an argument.
pub mod Startup
use pdftalk.Prelude.{
  ℕ, String, Bool, true, false, Option, none, some, List, [], ◌∷◌, ◌++◌, ◌+◌, ◌*◌, ◌-◌, ◌==◌, ◌&&◌,
  ◌||◌, leb, if◌then◌else◌, length, str_eq,
}
use pdftalk.Prelude.Action.{Result, ok, err}
use pdftalk.Prelude.Text.{codes}
use pdftalk.Exceptions.{PdfTalkError, rate_limit_exceeded, rate_limiter_unavailable, value_error}
use pdftalk.Config.{Values, value_or}
use pdftalk.Logging.{get_key}

pub data IdentityMode : Type 0 where
  anonymous tenant_jwt : IdentityMode

-- With the parameters that each algorithm takes: the capacity and the refill rate of a bucket, the
-- limit and the length of a window.
pub data AlgorithmType : Type 0 where
  token_bucket : (capacity_micro refill_rate_micro_per_sec : ℕ) → AlgorithmType
  sliding_window : (limit window_size_micro : ℕ) → AlgorithmType

pub data FailMode : Type 0 where
  fail_open : FailMode

pub record Policy : Type 0 where
  pub endpoint_id : String
  pub identity : IdentityMode
  pub algorithm : AlgorithmType
  pub fail_mode : FailMode
  pub fallback_rate_per_process_micro : ℕ
  pub policy_version : ℕ

abbrev policy : String → IdentityMode → ℕ → AlgorithmType → String × Policy
policy name identity fallback algorithm = (
  name,
  record {
    endpoint_id = name;
    identity = identity;
    algorithm = algorithm;
    fail_mode = fail_open;
    fallback_rate_per_process_micro = fallback;
    policy_version = 1;
  },
)

abbrev pub policies : List (String × Policy)
policies =
    policy "pdftalk.auth.register" anonymous 1000000 (token_bucket 5000000 1389)
    ∷ policy "pdftalk.auth.resend" anonymous 1000000 (token_bucket 5000000 1389)
    ∷ policy "pdftalk.auth.login" anonymous 1000000 (token_bucket 10000000 166667)
    ∷ policy "pdftalk.auth.reset" anonymous 1000000 (token_bucket 3000000 833)
    ∷ policy "pdftalk.documents.upload" tenant_jwt 1000000 (sliding_window 5 60000000)
    ∷ policy "pdftalk.query.ask" tenant_jwt 10000000 (sliding_window 20 60000000)
    ∷ policy "pdftalk.chats.create" tenant_jwt 1000000 (sliding_window 10 60000000)
    ∷ []

-- The exported guards, with the factory that makes each.
abbrev pub guards : List (String × IdentityMode)
guards =
    ("pdftalk.auth.register", anonymous)
    ∷ ("pdftalk.auth.resend", anonymous)
    ∷ ("pdftalk.auth.login", anonymous)
    ∷ ("pdftalk.auth.reset", anonymous)
    ∷ ("pdftalk.documents.upload", tenant_jwt)
    ∷ ("pdftalk.query.ask", tenant_jwt)
    ∷ ("pdftalk.chats.create", tenant_jwt)
    ∷ []

-- `urllib.parse.quote`, and the two settings that are not texts, as the settings read them.
pub record Readers : Type 0 where
  pub quote : List ℕ → List ℕ
  pub cookie_ttl_seconds : Values → ℕ
  pub cookie_secure : Values → Bool

pub record SentinelConfig : Type 0 where
  pub redis_url : List ℕ
  pub jwt_secret : String
  pub jwt_algorithm_allowlist : List String
  pub anonymous_cookie_secret : String
  pub anonymous_cookie_name : String
  pub anonymous_cookie_ttl_seconds : ℕ
  pub anonymous_cookie_secure : Bool
  pub rules : List (String × Policy)

-- A setting that is missing or empty is false.
abbrev pub is_set : Option String → Bool
is_set none = false
is_set (some v) = if str_eq v "" then false else true

abbrev sentinel_redis : Readers → String → List ℕ
sentinel_redis r password =
    codes "redis://:" ++ (r.quote (codes password) ++ codes "@sentinel-redis:6379/0")

abbrev pub redis_url_of : Readers → Values → Option (List ℕ)
redis_url_of r v =
    if is_set (get_key "SENTINEL_REDIS_URL" v)
    then some (codes (value_or "" (get_key "SENTINEL_REDIS_URL" v)))
    else if is_set (get_key "SENTINEL_REDIS_PASSWORD" v)
    then some (sentinel_redis r (value_or "" (get_key "SENTINEL_REDIS_PASSWORD" v)))
    else none

abbrev configured : Readers → Values → List ℕ → SentinelConfig
configured r v url = record {
  redis_url = url;
  jwt_secret = value_or "" (get_key "JWT_SECRET_KEY" v);
  jwt_algorithm_allowlist = value_or "HS256" (get_key "JWT_ALGORITHM" v) ∷ [];
  anonymous_cookie_secret = value_or "" (get_key "ANONYMOUS_COOKIE_SECRET" v);
  anonymous_cookie_name = value_or "pdftalk_anon_id" (get_key "ANONYMOUS_COOKIE_NAME" v);
  anonymous_cookie_ttl_seconds = r.cookie_ttl_seconds v;
  anonymous_cookie_secure = r.cookie_secure v;
  rules = policies;
}

unfoldable pub build_sentinel_config : Readers → Values → Result PdfTalkError SentinelConfig
build_sentinel_config r v = elim (redis_url_of r v) [
  | none ↦ err value_error
  | some url ↦
      if is_set (get_key "ANONYMOUS_COOKIE_SECRET" v)
      then ok (configured r v url)
      else err value_error
]

-- The limiter's `HTTPException`, with its `Retry-After` header.
pub record HttpException : Type 0 where
  pub status_code : ℕ
  pub retry_after : Option (List ℕ)

abbrev pub is_decimal : ℕ → Bool
is_decimal c = leb 48 c && leb c 57

-- `str.isdigit` of a header, which is Latin-1: the superscripts 2, 3 and 1 are digits too.
abbrev pub is_digit : ℕ → Bool
is_digit c = is_decimal c || ((c == 178 || c == 179) || c == 185)

abbrev pub all_chars : (ℕ → Bool) → List ℕ → Bool
all_chars p [] = true
all_chars p (c ∷ cs) = p c && all_chars p cs

abbrev pub isdigit : List ℕ → Bool
isdigit [] = false
isdigit (c ∷ cs) = all_chars is_digit (c ∷ cs)

abbrev pub decimal_value : ℕ → List ℕ → ℕ
decimal_value n [] = n
decimal_value n (c ∷ cs) = decimal_value (10 * n + (c - 48)) cs

-- `int`, which takes decimals only, and at most 4300 of them.
abbrev pub int : List ℕ → Option ℕ
int cs = if all_chars is_decimal cs && leb (length cs) 4300 then some (decimal_value 0 cs) else none

-- What a guard raises.
pub data Raised : Type 0 where
  app_error : PdfTalkError → Raised
  http_error : HttpException → Raised

abbrev pub retry_error : Option (List ℕ) → Raised
retry_error none = app_error (rate_limit_exceeded 60)
retry_error (some header) =
    if isdigit header
    then elim (int header) [
      | none ↦ app_error value_error
      | some n ↦ app_error (rate_limit_exceeded n)
    ]
    else app_error (rate_limit_exceeded 60)

unfoldable pub adapt_sentinel_error : HttpException → Raised
adapt_sentinel_error exc =
    if exc.status_code == 429
    then retry_error exc.retry_after
    else if exc.status_code == 503
    then app_error rate_limiter_unavailable
    else http_error exc

abbrev adapted : Result HttpException (Unit {0}) → Result Raised (Unit {0})
adapted (ok done) = ok done
adapted (err exc) = err (adapt_sentinel_error exc)

-- The dependency that `_make_tenant_guard` and `_make_anonymous_guard` make of the limiter's own,
-- which reads and writes the limiter's state.
abbrev pub make_guard :
    {S : Type 0} → (S → Result HttpException (Unit {0}) × S) → S → Result Raised (Unit {0}) × S
make_guard sentinel_dep s = (adapted (sentinel_dep s).0, (sentinel_dep s).1)
