-- ===== src/Query/Stream.antt =====
-- `_sse_generator` of backend/app/routers/query.py.
use pdftalk.Prelude.{ℕ, zero, suc, true, none, some, List, [], ◌∷◌, ◌++◌, map, ◌==◌, if◌then◌else◌}
use pdftalk.Chats.{ChatStore, Env, Message, complete, cut_short}
use pdftalk.Query.{
  StreamError, Ending, Citation, Event, Exit, Generator, Answering, api_timeout, daily_tokens,
  daily_queries, breaker_is_open, retries_are_exhausted, token_is_invalid, token_has_expired,
  other_error, fails, cancelled, meta_event, token_event, sources_event, fallback_event, done_event,
  error_event, raised, commit_failed, Sse, closed, chunk_timeout, stopped,
}
use pdftalk.Prelude.Action.{pure, raise, modify, ◌>>◌, catch, ok, err}
use pdftalk.Prelude.Table.{update}
use pdftalk.Prompt.{RetrievedChunk, Encoder, count_tokens, assistant}

-- `yield`: the event reaches the client, which may leave at it.
unfoldable pub emit : Event → Generator
emit e s = elim s.patience [
  | zero ↦ (err closed, record s { sent = s.sent ++ e ∷ [] })
  | suc n ↦ (ok tt, record s { sent = s.sent ++ e ∷ []; patience = n })
]

unfoldable pub accumulate : List ℕ → Generator
accumulate token = modify λ s. record s { accumulated_content = s.accumulated_content ++ token }

-- The end of the loop.
unfoldable pub end_stream : Ending → Generator
end_stream stopped = modify λ s. record s { generation_completed = true }
end_stream (fails e) = raise (raised e)
end_stream cancelled = raise closed

-- `while True`, over the tokens to come.
unfoldable pub stream_tokens : List (List ℕ) → Ending → Generator
unfolding accumulate
stream_tokens [] ending = end_stream ending
stream_tokens (token ∷ tokens) ending =
    let rest = stream_tokens tokens ending in accumulate token >> (emit (token_event token) >> rest)

abbrev pub cite : RetrievedChunk → Citation
cite c = record { document_id = c.document_id; filename = c.filename; chunk_index = c.chunk_index }

abbrev pub sources_of : Answering → Event
sources_of a = sources_event (map cite a.included_chunks)

-- After the tokens: the sources, the fallback signal, the terminal event.
unfoldable pub finish_stream : Answering → Generator
finish_stream a = elim a.sources_raise [
  | some e ↦ raise (raised e)
  | none ↦
      emit (sources_of a)
      >> ((if a.is_fallback then emit fallback_event else pure tt) >> emit done_event)
]

abbrev pub stream_timeout : Event
stream_timeout =
    error_event "STREAM_TIMEOUT" "The response took too long to generate. Please try again."

abbrev pub unavailable : Event
unavailable =
    error_event "AI_SERVICE_UNAVAILABLE"
      "The AI service is temporarily unavailable. Please try again shortly."

abbrev pub session_expired : Event
session_expired = error_event "TOKEN_EXPIRED" "Session expired. Please log in again."

abbrev pub stream_error : Event
stream_error =
    error_event "STREAM_ERROR" "An unexpected error occurred while generating the response."

-- The event of each `except` clause.
abbrev pub error_of : StreamError → Event
error_of chunk_timeout = stream_timeout
error_of api_timeout = stream_timeout
error_of daily_tokens =
    error_event "DAILY_QUOTA_EXCEEDED"
      "You have reached your daily usage limit. Please try again tomorrow."
error_of daily_queries =
    error_event "DAILY_QUOTA_EXCEEDED"
      "You have reached your daily query limit. Please try again tomorrow."
error_of breaker_is_open = unavailable
error_of retries_are_exhausted = unavailable
error_of token_is_invalid = session_expired
error_of token_has_expired = session_expired
error_of other_error = stream_error

-- The `except` clauses: an answer that is complete is not called failed.
unfoldable pub handle : Exit → Generator
handle closed = raise closed
handle commit_failed = raise commit_failed
handle (raised e) = λ s. (if s.generation_completed then emit done_event else emit (error_of e)) s

abbrev pub assistant_message : Env → Encoder → ℕ → Sse → Message
assistant_message env enc chat_id s = record {
  id = env.uuid4;
  chat_id = chat_id;
  role = assistant;
  content = s.accumulated_content;
  token_count = count_tokens enc s.accumulated_content;
  status = if s.generation_completed then complete else cut_short;
  created_at = env.now;
}

-- The writes of the `finally` block.
abbrev pub with_answer : Env → Encoder → ℕ → Sse → ChatStore
with_answer env enc chat_id s = record s.db.live {
  messages = s.db.live.messages ++ assistant_message env enc chat_id s ∷ [];
  chats = update (λ c. c.id == chat_id) (λ c. record c { updated_at = env.now }) s.db.live.chats;
}

-- `finally`; the value of `r` goes on unless the commit fails.
unfoldable pub save_answer : Env → Encoder → ℕ → Generator
save_answer env enc chat_id s = elim s.accumulated_content [
  | [] ↦ (ok tt, s)
  | x ∷ xs ↦
      let live = with_answer env enc chat_id s in
      if env.commits
      then (ok tt, record s { db = record { live = live; saved = live } })
      else (err commit_failed, record s { db = record s.db { live = live } })
]

abbrev pub finally : Generator → Generator → Generator
finally m after s =
    let (r, s') = m s in let (r', s'') = after s' in (elim r' [ ok a ↦ r | err e ↦ err e ], s'')

unfoldable pub generate : Answering → Generator
generate a = catch (stream_tokens a.tokens a.ending >> finish_stream a) handle

unfoldable pub announce_missing : Answering → Generator
announce_missing a = elim a.missing_ids [ [] ↦ pure tt | t ∷ ts ↦ emit (meta_event (t ∷ ts)) ]

unfoldable pub sse_generator : Env → Encoder → Answering → Generator
sse_generator env enc a = announce_missing a >> finally (generate a) (save_answer env enc a.chat_id)
