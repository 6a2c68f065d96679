-- ===== src/Tests/Calls.antt =====
-- Guarded calls over a small store of keys with expiry times
-- (backend/app/utils/openai_client.py).
use pdftalk.Prelude.{
  eq_iff, ◌+◌, String, ◌≡◌, refl, true, false, Option, none, some, List, [], ◌∷◌, arith, ltb,
  if◌then◌else◌, str_eq, ℕ,
}
use pdftalk.OpenAi.{
  key_failures, is_circuit_open, guarded_call, rate_limited, status_error, breaker_open, Redis,
  Process, Reply,
}
use pdftalk.OpenAi.Breaker.{KeepsValue, at_instant, guarded_call_trips}
use pdftalk.Prelude.Action.{err}

-- A key, its value and the time at which it expires; the newest entry counts.
abbrev pub Keys : Type 0
Keys = List (String × ℕ × ℕ)

abbrev pub look_up : String → ℕ → Keys → Option ℕ
look_up key t [] = none
look_up key t ((k, v, e) ∷ ks) =
    if str_eq k key then (if ltb t e then some v else none) else look_up key t ks

abbrev pub count_up : Option ℕ → ℕ
count_up none = 1
count_up (some n) = n + 1

abbrev pub plus : ℕ → Option ℕ → ℕ
plus n none = n
plus n (some m) = m + n

abbrev pub small : Redis Keys
small = record {
  get = look_up;
  set_ex = λ key v ttl now s. (key, v, now + ttl) ∷ s;
  delete = λ key s. (key, 0, 0) ∷ s;
  incr =
      λ key now s. (count_up (look_up key now s), (key, count_up (look_up key now s), 100000) ∷ s);
  expire = λ key ttl now s. s;
  incr_by =
      λ key n now s. (plus n (look_up key now s), (key, plus n (look_up key now s), 100000) ∷ s);
  persist = λ key now s. s;
  zincr_by = λ key n member s. s;
  ttl = λ key now s. none;
}

pub str_eq_refl : (k : String) → str_eq k k ≡ true
str_eq_refl k = (eq_iff k k).1 refl

pub small-KeepsValue : KeepsValue small
small-KeepsValue key value ttl now t s h = rw (str_eq_refl key) (ground arith)

-- Two failures are on record.
abbrev pub shaky : Process Keys
shaky = record { store = (key_failures, 2, 100000) ∷ []; now = 1000; calls = 7; sleeps = [] }

abbrev down : ℕ → Reply ℕ
down n = status_error 503

abbrev busy : ℕ → Reply ℕ
busy n = rate_limited

shaky_closed : is_circuit_open small shaky ≡ false
unfolding is_circuit_open
shaky_closed = refl

guarded_call_trips_example :
    let (r, p') = guarded_call small down shaky in
    (r ≡ err breaker_open)
    × (p'.calls ≡ 8)
    × (guarded_call small busy (at_instant 1030 p') ≡ (err breaker_open, at_instant 1030 p'))
guarded_call_trips_example =
    guarded_call_trips small down shaky busy 503 1030 small-KeepsValue shaky_closed refl
      (omega arith) (omega arith) (omega arith)
