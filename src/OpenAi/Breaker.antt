-- ===== src/OpenAi/Breaker.antt =====
-- When the circuit opens, what an open circuit stops, and how often a guarded call asks.
use pdftalk.Prelude.{
  refl, true, ◌==◌, if◌then◌else◌, ◌-◌, ◌*◌, ◌^◌, zero, suc, arith, ◌+◌, ◌≤◌, ◌<◌, String, ◌≡◌,
  false, some, [], ◌∷◌, ◌++◌, ℕ,
}
use pdftalk.OpenAi.{
  failure_window, key_open_until, retry_base_delay, CallError, record_success, increment_counter,
  open_circuit, record_failure, sleep, status_failure, on_reply, sent, attempt_call, answered,
  failure_threshold, open_seconds, key_failures, is_circuit_open, rate_limited, status_error,
  breaker_open, retries_exhausted, Redis, Process, Reply, guarded_call,
}
use pdftalk.Prelude.Action.{ok, Result, ◌>>◌, Action, err}
use mathlib.Core.List.{append_assoc}

-- Redis answers a key that was set with its value until the TTL runs out.
abbrev pub KeepsValue : {S : Type 0} → Redis S → Type 0
KeepsValue {S} redis =
    (key : String) (value ttl now t : ℕ) (s : S)
    → t < now + ttl
    → redis.get key t (redis.set_ex key value ttl now s) ≡ some value

abbrev pub at_instant : {S : Type 0} → ℕ → Process S → Process S
at_instant t p = record p { now = t }

module _ {S : Type 0} (redis : Redis S) where
  record_failure-calls : (p : Process S) → (record_failure redis p).1.calls ≡ p.calls
  unfolding record_failure increment_counter open_circuit
  record_failure-calls p = ground arith

  status_failure-calls :
      (A : Type 0) (code : ℕ) (p : Process S)
      → let out : Result CallError A × Process S = status_failure redis code p in
        out.1.calls ≡ p.calls
  unfolding status_failure
  status_failure-calls A code p = ground (arith, record_failure-calls p)

  on_reply-calls :
      {A : Type 0} (r : Reply A) (limited : Action (Process S) CallError A) (n : ℕ) (p : Process S)
      → (limited p).1.calls ≤ p.calls + n
      → (on_reply redis r limited p).1.calls ≤ p.calls + n
  unfolding on_reply record_success
  on_reply-calls (answered a) limited n p h = omega arith
  on_reply-calls {A = A} (status_error code) limited n p h =
      omega (arith, status_failure-calls A code p)
  on_reply-calls rate_limited limited n p h = h

  attempt_call-calls :
      {A : Type 0} (client : ℕ → Reply A) (left attempt : ℕ) (p : Process S)
      → (attempt_call redis client left attempt p).1.calls ≤ p.calls + 1 + left
  unfolding attempt_call sleep
  attempt_call-calls client zero attempt p =
      on_reply-calls (client attempt) _ 0 (sent p) (omega arith)
  attempt_call-calls client (suc n) attempt p =
      let pause = retry_base_delay * 2 ^ (attempt - 1) in
      on_reply-calls (client attempt)
        (sleep redis pause >> attempt_call redis client n (suc attempt)) (suc n) (sent p)
        (omega (
          arith,
          attempt_call-calls client n (suc attempt)
              (record (sent p) { now = p.now + pause; sleeps = p.sleeps ++ pause ∷ [] }),
        ))

-- The process after the failure that opens the circuit.
abbrev tripped_by : {S : Type 0} → Redis S → Process S → Process S
tripped_by redis p =
    let (n, s) = redis.incr key_failures p.now p.store in
    let counted = if n == 1 then redis.expire key_failures failure_window p.now s else s in
    record p {
      store = redis.set_ex key_open_until (p.now + open_seconds) (open_seconds + 5) p.now counted;
    }

module _ {S : Type 0} (redis : Redis S) (p : Process S) where
  record_failure-opens :
      failure_threshold ≤ (redis.incr key_failures p.now p.store).0
      → record_failure redis p ≡ (ok tt, tripped_by redis p)
  unfolding record_failure increment_counter open_circuit
  record_failure-opens third = ground arith

  stays_open :
      (t : ℕ)
      → KeepsValue redis
      → t < p.now + open_seconds
      → is_circuit_open redis (at_instant t (tripped_by redis p)) ≡ true
  unfolding is_circuit_open
  stays_open t keeps soon =
      let (n, s) = redis.incr key_failures p.now p.store in
      let counted = if n == 1 then redis.expire key_failures failure_window p.now s else s in
      rw
        (
          keeps key_open_until (p.now + open_seconds) (open_seconds + 5) p.now t counted
              (omega arith),
          is_circuit_open,
        )
        (ground arith)

  status_failure-trips :
      (A : Type 0) (code : ℕ)
      → KeepsValue redis
      → 500 ≤ code
      → failure_threshold ≤ (redis.incr key_failures p.now p.store).0
      → let out : Result CallError A × Process S = status_failure redis code p in
        out ≡ (err breaker_open, tripped_by redis p)
  unfolding status_failure
  status_failure-trips A code keeps server third =
      ground (arith, record_failure-opens third, stays_open p.now keeps (omega arith))

module _ {S A : Type 0} (redis : Redis S) (client : ℕ → Reply A) (p : Process S) where
  -- With a Redis that keeps a value for its TTL, a server error on the first attempt that is the
  -- third failure in the window opens a closed circuit: this call raises
  -- the breaker's error after one request, and for 60 seconds every other call raises it without
  -- a request.
  pub guarded_call_trips :
      {B : Type 0} (other : ℕ → Reply B) (code t : ℕ)
      → KeepsValue redis
      → is_circuit_open redis p ≡ false
      → client 1 ≡ status_error code
      → 500 ≤ code
      → failure_threshold ≤ (redis.incr key_failures p.now p.store).0
      → t < p.now + open_seconds
      → let (r, p') = guarded_call redis client p in
        (r ≡ err breaker_open)
        × (p'.calls ≡ p.calls + 1)
        × (guarded_call redis other (at_instant t p') ≡ (err breaker_open, at_instant t p'))
  unfolding guarded_call attempt_call on_reply
  guarded_call_trips other code t keeps closed failing server third soon =
      let q = sent p in
      let tripped = status_failure-trips redis q A code keeps server third in
      rw closed (rw failing (rw tripped (refl, refl, rw (stays_open redis q t keeps soon) refl)))

  -- On a closed circuit three rate limits exhaust the retries: three requests, with pauses of 5 and 10 seconds.
  guarded_call_exhausted :
      is_circuit_open redis p ≡ false
      → client 1 ≡ rate_limited
      → client 2 ≡ rate_limited
      → client 3 ≡ rate_limited
      → guarded_call redis client p ≡ (
        err retries_exhausted,
        record p { now = p.now + 15; calls = p.calls + 3; sleeps = p.sleeps ++ 5 ∷ 10 ∷ [] },
      )
  unfolding guarded_call attempt_call on_reply sleep
  guarded_call_exhausted closed first second third =
      rw closed
        (rw first (rw second (rw third (ground (arith, append_assoc p.sleeps (5 ∷ []) (10 ∷ []))))))

  -- No reply makes a guarded call send more than three requests.
  guarded_call_bounded : (guarded_call redis client p).1.calls ≤ p.calls + 3
  unfolding guarded_call
  guarded_call_bounded = ground (arith, attempt_call-calls redis client 2 1 p)
