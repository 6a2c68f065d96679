-- ===== src/OpenAi/Window.antt =====
-- The time that a daily counter lives (backend/app/utils/redis_client.py, openai_client.py).
use pdftalk.Prelude.{ℕ, ◌+◌, ◌<◌, String, Option, ◌≡◌, none, some}
use pdftalk.OpenAi.{Redis}

-- PERSIST takes the expiry away.
abbrev pub PersistForgets : {S : Type 0} → Redis S → Type 0
PersistForgets {S} redis =
    (key : String) (now : ℕ) (s : S) → redis.ttl key now (redis.persist key now s) ≡ none

-- EXPIRE sets it.
abbrev pub ExpireSets : {S : Type 0} → Redis S → Type 0
ExpireSets {S} redis =
    (key : String) (n now : ℕ) (s : S) → redis.ttl key now (redis.expire key n now s) ≡ some n

-- INCRBY counts on from what stands under the key, or from 0, and GET reads what it wrote.
abbrev pub or_zero : Option ℕ → ℕ
or_zero none = 0
or_zero (some n) = n

abbrev pub IncrByCounts : {S : Type 0} → Redis S → Type 0
IncrByCounts {S} redis =
    (key : String) (n now : ℕ) (s : S)
    → let (m, t) = redis.incr_by key n now s in
      (m ≡ or_zero (redis.get key now s) + n) × (redis.get key now t ≡ some m)

-- A change of the expiry leaves the value.
abbrev pub PersistKeeps : {S : Type 0} → Redis S → Type 0
PersistKeeps {S} redis =
    (key : String) (now : ℕ) (s : S)
    → redis.get key now (redis.persist key now s) ≡ redis.get key now s

abbrev pub ExpireKeeps : {S : Type 0} → Redis S → Type 0
ExpireKeeps {S} redis =
    (key : String) (n now : ℕ) (s : S)
    → 0 < n
    → redis.get key now (redis.expire key n now s) ≡ redis.get key now s
