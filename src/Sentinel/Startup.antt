-- ===== src/Sentinel/Startup.antt =====
-- When the limiter is configured, and what a refused request raises (backend/app/core/sentinel.py).
use pdftalk.Prelude.{
  ℕ, ◌≡◌, ◌≤◌, ◌⊎◌, refl, inl, inr, true, false, some, arith, Bool-cases, List, [], ◌∷◌, ◌||◌, ◌&&◌,
  length,
}
use pdftalk.Prelude.Action.{ok, err}
use pdftalk.Exceptions.{rate_limit_exceeded, value_error}
use pdftalk.Config.{Values}
use pdftalk.Logging.{get_key}
use pdftalk.Sentinel.{
  Readers, SentinelConfig, build_sentinel_config, is_set, policies, HttpException, isdigit,
  all_chars, is_decimal, is_digit, int, adapt_sentinel_error, app_error, decimal_value,
}

-- The process comes up exactly when there is an address or a password of the limiter's Redis, and a
-- secret for the cookies; then the policies are those of the module.
pub build_sentinel_config_iff :
    (r : Readers) (v : Values)
    → let usable =
        (is_set (get_key "SENTINEL_REDIS_URL" v) || is_set (get_key "SENTINEL_REDIS_PASSWORD" v))
        && is_set (get_key "ANONYMOUS_COOKIE_SECRET" v) in
      ((usable ≡ true)
        × ((c : SentinelConfig) × (build_sentinel_config r v ≡ ok c) × (c.rules ≡ policies)))
      ⊎ ((usable ≡ false) × (build_sentinel_config r v ≡ err value_error))
unfolding build_sentinel_config
build_sentinel_config_iff r v = elim (Bool-cases (is_set (get_key "ANONYMOUS_COOKIE_SECRET" v))) [
  | inl secret ↦ elim (Bool-cases (is_set (get_key "SENTINEL_REDIS_URL" v))) [
    | inl url ↦ rw (url, secret, build_sentinel_config) (inl (refl, (_, refl, refl)))
    | inr no_url ↦ elim (Bool-cases (is_set (get_key "SENTINEL_REDIS_PASSWORD" v))) [
      | inl password ↦
          rw (no_url, password, secret, build_sentinel_config) (inl (refl, (_, refl, refl)))
      | inr no_password ↦ rw (no_url, no_password, build_sentinel_config) (inr (refl, refl))
    ]
  ]
  | inr no_secret ↦ elim (Bool-cases (is_set (get_key "SENTINEL_REDIS_URL" v))) [
    | inl url ↦ rw (url, no_secret, build_sentinel_config) (inr (refl, refl))
    | inr no_url ↦ elim (Bool-cases (is_set (get_key "SENTINEL_REDIS_PASSWORD" v))) [
      | inl password ↦ rw (no_url, password, no_secret, build_sentinel_config) (inr (refl, refl))
      | inr no_password ↦ rw (no_url, no_password, build_sentinel_config) (inr (refl, refl))
    ]
  ]
]

decimals_are_digits : (cs : List ℕ) → all_chars is_decimal cs ≡ true → all_chars is_digit cs ≡ true
decimals_are_digits [] h = refl
decimals_are_digits (c ∷ cs) h = ground (arith, h, decimals_are_digits cs)

-- A refusal with a decimal number of seconds reaches the client with that number.
pub adapt_sentinel_error_seconds :
    (c : ℕ) (cs : List ℕ) (exc : HttpException)
    → exc.status_code ≡ 429
    → exc.retry_after ≡ some (c ∷ cs)
    → all_chars is_decimal (c ∷ cs) ≡ true
    → length (c ∷ cs) ≤ 4300
    → (n : ℕ) × (int (c ∷ cs) ≡ some n)
      × (adapt_sentinel_error exc ≡ app_error (rate_limit_exceeded n))
unfolding adapt_sentinel_error
adapt_sentinel_error_seconds c cs exc refused header decimals short =
    let digits : isdigit (c ∷ cs) ≡ true = decimals_are_digits (c ∷ cs) decimals in
    let number : int (c ∷ cs) ≡ some (decimal_value 0 (c ∷ cs)) = ground (arith, decimals, short) in
    (
      decimal_value 0 (c ∷ cs),
      number,
      rw (refused, header, digits, number, adapt_sentinel_error) refl,
    )
