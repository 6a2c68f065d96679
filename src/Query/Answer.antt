-- ===== src/Query/Answer.antt =====
-- The stream that the endpoint opens: `stream_llm_response` of backend/app/services/llm.py, with
-- `_stream_chat_with_usage` of backend/app/utils/openai_client.py, read by the generator.
use pdftalk.OpenAi.{
  Process, retries_exhausted, api_status, is_circuit_open, Redis, Reply, CallError, breaker_open,
  guarded_call,
}
use pdftalk.Prelude.{
  ap, ◌∙◌, arith, refl, inl, inr, Bool-cases, ℕ, suc, ◌+◌, ◌≡◌, Bool, true, false, Option, List, [],
  ◌∷◌, ◌++◌, leb, if◌then◌else◌, length, take,
}
use pdftalk.Query.Sent.{sse_generator-sent}
use pdftalk.Query.{
  Event, retries_are_exhausted, other_error, fails, Ending, StreamError, Answering, breaker_is_open,
}
use pdftalk.Prelude.Action.{Result, ok, err}
use pdftalk.OpenAi.Usage.{StreamChunk, record_output, tokens_of}
use pdftalk.Query.Ask.{Settings, Asking, Prepared}
use pdftalk.Query.Stream.{sse_generator, unavailable}
use pdftalk.Chats.{State, Env}
use pdftalk.Chats.Service.{is_no_text}
use pdftalk.Query.Emission.{at, opening}

-- What the OpenAI service streams, and how the stream ends.
abbrev pub LlmStream : Type 0
LlmStream = List StreamChunk × Ending

abbrev pub stream_error_of : CallError → StreamError
stream_error_of breaker_open = breaker_is_open
stream_error_of retries_exhausted = retries_are_exhausted
stream_error_of (api_status n) = other_error

-- The first `__anext__` opens the stream by a guarded call, and raises what that raises.
abbrev pub opened : Result CallError LlmStream → LlmStream
opened (ok stream) = stream
opened (err e) = ([], fails (stream_error_of e))

-- `_sse_generator(...)` with the tokens of a stream.
abbrev pub answering : Prepared → Option StreamError → LlmStream → Answering
answering p sources_raise (chunks, ending) = record {
  chat_id = p.chat.id;
  tokens = tokens_of chunks;
  ending = ending;
  included_chunks = p.included_chunks;
  missing_ids = p.missing_ids;
  is_fallback = p.is_fallback;
  sources_raise = sources_raise;
}

-- The token stream is read to its end when the client asks on after the last token.
abbrev pub reads_all : Answering → ℕ → Bool
reads_all a patience = leb ((if is_no_text a.missing_ids then 0 else 1) + length a.tokens) patience

module _ {S V : Type 0} (env : Env) (redis : Redis S) (settings : Settings V) where
  -- The answer once the stream is opened or refused, for a client that asks on after `patience`
  -- events. The `finally` of `stream_llm_response` runs when the stream was read to its end; a
  -- generator that is dropped before has seen no usage.
  abbrev pub stream_answer :
      Option StreamError
      → ℕ
      → Prepared
      → ℕ
      → State
      → Result CallError LlmStream × Process S
      → List Event × Asking S
  stream_answer sources_raise user_id p patience db (r, process) =
      let a = answering p sources_raise (opened r) in
      let (outcome, sse) = sse_generator env settings.encoder a (at db [] patience [] false) in
      let counted = (record_output redis settings.limits user_id (opened r).0 process).1 in
      (
        sse.sent,
        record { db = sse.db; process = (if reads_all a patience then counted else process) },
      )

  unfoldable pub respond :
      (ℕ → Reply LlmStream)
      → Option StreamError
      → ℕ
      → Prepared
      → ℕ
      → Asking S
      → List Event × Asking S
  respond llm sources_raise user_id p patience s =
      stream_answer sources_raise user_id p patience s.db (guarded_call redis llm s.process)

  -- While the circuit is open the client gets, after the event on missing documents, one error and
  -- nothing else, and no request is sent.
  pub respond-unavailable :
      (llm : ℕ → Reply LlmStream) (x : Option StreamError) (u : ℕ) (p : Prepared) (n : ℕ)
      (s : Asking S)
      → is_circuit_open redis s.process ≡ true
      → ((respond llm x u p n s).0 ≡ take (suc n) (opening p.missing_ids ++ unavailable ∷ []))
        × ((respond llm x u p n s).1.process ≡ s.process)
  unfolding respond record_output guarded_call
  respond-unavailable llm x u p n s is_open =
      let a = answering p x ([], fails breaker_is_open) in
      let refused : guarded_call redis llm s.process ≡ (err breaker_open, s.process) =
        ground arith in
      let answered_ = ap (stream_answer x u p n s.db) refused in
      (
        ap (λ r. r.0) answered_ ∙ sse_generator-sent env settings.encoder a s.db n,
        ap (λ r. r.1.process) answered_
            ∙ elim (Bool-cases (reads_all a n)) [ inl h ↦ rw h refl | inr h ↦ rw h refl ],
      )
