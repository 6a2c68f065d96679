-- ===== src/OpenAi/Usage.antt =====
-- The quota counters of backend/app/utils/redis_client.py and openai_client.py, the accounting of
-- backend/app/services/llm.py, and the calls for embeddings and streams. `today` is the date in the
-- keys' names; the names themselves are arguments.

use pdftalk.Prelude.{ℕ, String, Option, none, some, List, [], ◌∷◌, map, ltb, ◌==◌, if◌then◌else◌}
use pdftalk.Prelude.Action.{Action, pure, raise_if, ◌>>=◌, catch, ok, err}
use pdftalk.OpenAi.{
  guarded_call, Redis, Process, CallError, breaker_open, retries_exhausted, api_status, Reply,
}
use pdftalk.Exceptions.{
  PdfTalkError, daily_quota_exceeded, daily_query_quota_exceeded, circuit_breaker_open,
  retry_exhausted,
}
use pdftalk.Prelude.Sorting.{sort_by}

abbrev pub stats_seconds : ℕ
stats_seconds = 172800

-- The settings and the names of the keys.
pub record Limits : Type 0 where
  pub max_daily_tokens : ℕ
  pub max_daily_queries : ℕ
  pub seconds_until_midnight : ℕ
  pub key_daily_token_quota : ℕ → String
  pub key_daily_token_stats : String
  pub key_daily_query_quota : ℕ → String

abbrev pub of_call : CallError → PdfTalkError
of_call breaker_open = circuit_breaker_open
of_call retries_exhausted = retry_exhausted
of_call (api_status n) = PdfTalkError.api_status n

-- A text, or the usage that the last chunk reports.
pub data StreamChunk : Type 0 where
  no_choices : Option ℕ → StreamChunk
  delta : Option (List ℕ) → StreamChunk

-- `_stream_chat_with_usage`: the non-empty deltas; `stream_llm_response` yields these.
abbrev pub tokens_of : List StreamChunk → List (List ℕ)
tokens_of [] = []
tokens_of (no_choices usage ∷ cs) = tokens_of cs
tokens_of (delta none ∷ cs) = tokens_of cs
tokens_of (delta (some []) ∷ cs) = tokens_of cs
tokens_of (delta (some (x ∷ xs)) ∷ cs) = (x ∷ xs) ∷ tokens_of cs

-- `output_tokens`: what the last usage said.
abbrev pub output_tokens : ℕ → List StreamChunk → ℕ
output_tokens n [] = n
output_tokens n (no_choices (some m) ∷ cs) = output_tokens m cs
output_tokens n (no_choices none ∷ cs) = output_tokens n cs
output_tokens n (delta d ∷ cs) = output_tokens n cs

module _ {S : Type 0} (redis : Redis S) where
  -- The pipeline, then the expiry of a first write.
  unfoldable pub increment_counter_by :
      String → ℕ → ℕ → Option (String × ℕ) → Action (Process S) PdfTalkError ℕ
  increment_counter_by key amount ttl_seconds stats p =
      let (n, s) = redis.incr_by key amount p.now p.store in
      let s1 = redis.persist key p.now s in
      let s2 : S = elim stats [
        | none ↦ s1
        | some (zset, member) ↦ redis.zincr_by zset amount member s1
      ] in
      let s3 : S = redis.expire key ttl_seconds p.now s2 in
      let s4 : S = elim stats [
        | none ↦ s3
        | some (zset, member) ↦ redis.expire zset stats_seconds p.now s3
      ] in
      (ok n, record p { store = if n == amount then s4 else s2 })

  unfoldable pub check_and_increment_token_usage :
      Limits → ℕ → ℕ → Action (Process S) PdfTalkError (Unit {0})
  check_and_increment_token_usage limits user_id tokens = do
    new_total ←
        increment_counter_by (limits.key_daily_token_quota user_id) tokens
          limits.seconds_until_midnight (some (limits.key_daily_token_stats, user_id))
    raise_if (ltb limits.max_daily_tokens new_total) daily_quota_exceeded

  unfoldable pub check_and_increment_query_usage :
      Limits → ℕ → Action (Process S) PdfTalkError (Unit {0})
  check_and_increment_query_usage limits user_id = do
    new_total ←
        increment_counter_by (limits.key_daily_query_quota user_id) 1 limits.seconds_until_midnight
          none
    raise_if (ltb limits.max_daily_queries new_total) daily_query_quota_exceeded

  -- The `finally` of `stream_llm_response`: what it raises is logged and dropped.
  unfoldable pub record_output :
      Limits → ℕ → List StreamChunk → Action (Process S) PdfTalkError (Unit {0})
  record_output limits user_id chunks =
      let n = output_tokens 0 chunks in
      if ltb 0 n
      then catch (check_and_increment_token_usage limits user_id n) (λ e. pure tt)
      else pure tt

  unfoldable pub guarded : {A : Type 0} → (ℕ → Reply A) → Action (Process S) PdfTalkError A
  guarded client p =
      let (r, p') = guarded_call redis client p in
      (elim r [ ok a ↦ ok a | err e ↦ err (of_call e) ], p')

  -- `[item.embedding for item in sorted(response.data, key=lambda x: x.index)]`
  unfoldable pub create_embeddings :
      {V : Type 0} → (ℕ → Reply (List (ℕ × V))) → Action (Process S) PdfTalkError (List V)
  create_embeddings {V} client = do
    items ← guarded client
    pure (map (λ (x : ℕ × V). x.1) (sort_by (λ (x : ℕ × V). x.0) items))

  -- `chat_complete(..., stream=False)`; `none` is a message without content.
  unfoldable pub chat_complete :
      (ℕ → Reply (Option (List ℕ))) → Action (Process S) PdfTalkError (List ℕ)
  chat_complete client = do
    content ← guarded client
    pure (elim content [ none ↦ [] | some text ↦ text ])

  -- `chat_complete(..., stream=True)`: the deltas, once the stream is opened.
  unfoldable pub chat_stream :
      (ℕ → Reply (List StreamChunk)) → Action (Process S) PdfTalkError (List (List ℕ))
  chat_stream client = do chunks ← guarded client; pure (tokens_of chunks)
