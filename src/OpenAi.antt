-- ===== src/OpenAi.antt =====
-- backend/app/utils/openai_client.py: the circuit breaker and the guarded call, with the counters
-- of backend/app/utils/redis_client.py. Redis and the OpenAI client are arguments: the first as
-- its commands on a state of its own, the second as its reply to each attempt. Times are seconds.
pub mod Breaker
pub mod Usage
pub mod Window
use pdftalk.Prelude.Table.{delete}
use pdftalk.Prelude.{
  ℕ, zero, suc, ◌+◌, ◌*◌, ◌-◌, ◌^◌, String, Bool, false, Option, none, some, List, [], ◌∷◌, ◌++◌,
  ltb, leb, ◌==◌, if◌then◌else◌,
}
use pdftalk.Prelude.Action.{Action, ok, err, pure, raise, modify, gets, ◌>>=◌, ◌>>◌}

-- The commands that the client uses: a value is read at a time, and expires by its TTL.
pub record Redis (S : Type 0) : Type 0 where
  pub get : String → ℕ → S → Option ℕ
  pub set_ex : String → ℕ → ℕ → ℕ → S → S
  pub delete : String → S → S
  pub incr : String → ℕ → S → ℕ × S
  pub expire : String → ℕ → ℕ → S → S
  pub incr_by : String → ℕ → ℕ → S → ℕ × S
  pub persist : String → ℕ → S → S
  pub zincr_by : String → ℕ → ℕ → S → S
  pub ttl : String → ℕ → S → Option ℕ

pub data Reply (A : Type 0) : Type 0 where
  answered : A → Reply A
  rate_limited : Reply A
  status_error : ℕ → Reply A

pub data CallError : Type 0 where
  breaker_open retries_exhausted : CallError
  api_status : ℕ → CallError

-- `calls` counts the requests that were sent, `sleeps` lists the pauses.
pub record Process (S : Type 0) : Type 0 where
  pub store : S
  pub now : ℕ
  pub calls : ℕ
  pub sleeps : List ℕ

abbrev pub failure_threshold : ℕ
failure_threshold = 3

abbrev pub open_seconds : ℕ
open_seconds = 60

abbrev pub failure_window : ℕ
failure_window = 120

abbrev pub retry_attempts : ℕ
retry_attempts = 3

abbrev pub retry_base_delay : ℕ
retry_base_delay = 5

abbrev pub key_failures : String
key_failures = "cb:openai:failures"

abbrev pub key_open_until : String
key_open_until = "cb:openai:open_until"

abbrev pub sent : {S : Type 0} → Process S → Process S
sent p = record p { calls = p.calls + 1 }

module _ {S : Type 0} (redis : Redis S) where
  unfoldable pub is_circuit_open : Process S → Bool
  is_circuit_open p = elim (redis.get key_open_until p.now p.store) [
    | none ↦ false
    | some t ↦ ltb p.now t
  ]

  unfoldable pub record_success : Action (Process S) CallError (Unit {0})
  record_success = modify λ p. record p { store = redis.delete key_failures p.store }

  -- `increment_counter` with its TTL on the first write.
  unfoldable pub increment_counter : String → ℕ → Action (Process S) CallError ℕ
  increment_counter key ttl p =
      let (n, s) = redis.incr key p.now p.store in
      (ok n, record p { store = (if n == 1 then redis.expire key ttl p.now s else s) })

  unfoldable pub open_circuit : Action (Process S) CallError (Unit {0})
  open_circuit = modify λ p. record p {
    store = redis.set_ex key_open_until (p.now + open_seconds) (open_seconds + 5) p.now p.store;
  }

  unfoldable pub record_failure : Action (Process S) CallError (Unit {0})
  unfolding increment_counter open_circuit
  record_failure = do
    failures ← increment_counter key_failures failure_window
    if leb failure_threshold failures then open_circuit else pure tt

  unfoldable pub sleep : ℕ → Action (Process S) CallError (Unit {0})
  sleep n = modify λ p. record p { now = p.now + n; sleeps = p.sleeps ++ n ∷ [] }

  -- `except APIStatusError`
  unfoldable pub status_failure : {A : Type 0} → ℕ → Action (Process S) CallError A
  unfolding record_failure is_circuit_open
  status_failure code =
      if leb 500 code
      then (do
        record_failure
        tripped ← gets is_circuit_open
        if tripped then raise breaker_open else raise (api_status code))
      else raise (api_status code)

  -- What one attempt's reply leads to; `limited` is the rest after a `RateLimitError`.
  unfoldable pub on_reply :
      {A : Type 0} → Reply A → Action (Process S) CallError A → Action (Process S) CallError A
  unfolding record_success status_failure
  on_reply (answered a) limited = record_success >> pure a
  on_reply (status_error code) limited = status_failure code
  on_reply rate_limited limited = limited

  -- The loop over the attempts, with the number of those left after this one.
  unfoldable pub attempt_call :
      {A : Type 0} → (ℕ → Reply A) → ℕ → ℕ → Action (Process S) CallError A
  unfolding on_reply sleep
  attempt_call client zero attempt p = on_reply (client attempt) (raise retries_exhausted) (sent p)
  attempt_call client (suc n) attempt p =
      let rest = attempt_call client n (suc attempt) in
      on_reply (client attempt) (sleep (retry_base_delay * 2 ^ (attempt - 1)) >> rest) (sent p)

  unfoldable pub guarded_call : {A : Type 0} → (ℕ → Reply A) → Action (Process S) CallError A
  unfolding is_circuit_open attempt_call
  guarded_call client p =
      if is_circuit_open p
      then (err breaker_open, p)
      else attempt_call client (retry_attempts - 1) 1 p
