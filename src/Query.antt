-- ===== src/Query.antt =====
-- backend/app/routers/query.py: the answer to a question, as the events of a stream. The children
-- hold the generator and the endpoint. The tokens come from `stream_llm_response`; a client may
-- leave at any event, or while the next token is awaited.
pub mod Stream
pub mod Ask
pub mod Answer
pub mod Question
pub mod Exchange
pub mod Terminal
pub mod Emission
pub mod Delivery
pub mod Silent
pub mod Sent
pub mod Stored
use pdftalk.Prelude.{ℕ, String, Bool, Option, List}
use pdftalk.Prelude.Action.{Action}
use pdftalk.Chats.{State}
use pdftalk.Prompt.{RetrievedChunk}

-- What the handlers of the generator tell apart.
pub data StreamError : Type 0 where
  chunk_timeout api_timeout daily_tokens daily_queries : StreamError
  breaker_is_open retries_are_exhausted token_is_invalid token_has_expired other_error : StreamError

-- How the tokens end: `StopAsyncIteration`, an exception, or a cancellation of the waiting task.
pub data Ending : Type 0 where
  stopped : Ending
  fails : StreamError → Ending
  cancelled : Ending

pub record Citation : Type 0 where
  pub document_id : ℕ
  pub filename : List ℕ
  pub chunk_index : ℕ

pub data Event : Type 0 where
  meta_event : List String → Event
  token_event : List ℕ → Event
  sources_event : List Citation → Event
  fallback_event : Event
  done_event : Event
  error_event : String → String → Event

-- What leaves a step of the generator: GeneratorExit or CancelledError, which no handler catches,
-- or an exception.
pub data Exit : Type 0 where
  closed : Exit
  raised : StreamError → Exit
  commit_failed : Exit

-- `patience` is the number of events after which the client still asks for another.
pub record Sse : Type 0 where
  pub db : State
  pub sent : List Event
  pub patience : ℕ
  pub accumulated_content : List ℕ
  pub generation_completed : Bool

abbrev pub Generator : Type 0
Generator = Action Sse Exit (Unit {0})

-- What the endpoint hands to the generator. `sources_raise` is the exception that building the
-- sources event raises, if it does.
pub record Answering : Type 0 where
  pub chat_id : ℕ
  pub tokens : List (List ℕ)
  pub ending : Ending
  pub included_chunks : List RetrievedChunk
  pub missing_ids : List String
  pub is_fallback : Bool
  pub sources_raise : Option StreamError
