-- ===== src/Query/Terminal.antt =====
-- How a stream ends for a client that stays (backend/app/routers/query.py).
use pdftalk.Prelude.{
  ℕ, suc, ◌≤◌, String, ◌≡◌, refl, sym, ◌∙◌, ◌≢◌, inl, inr, Bool, true, false, List, [], ◌∷◌, ◌++◌,
  map, arith, Bool-cases, Option-cases, length, take_all,
}
use mathlib.Core.Path.{subst}
use pdftalk.Chats.{State, Env}
use pdftalk.Query.{
  StreamError, Ending, Event, Answering, chunk_timeout, api_timeout, daily_tokens, daily_queries,
  breaker_is_open, retries_are_exhausted, token_is_invalid, token_has_expired, other_error, stopped,
  fails, cancelled, meta_event, token_event, sources_event, fallback_event, error_event, done_event,
}
use pdftalk.Query.Delivery.{following, transcript}
use pdftalk.Query.Sent.{sse_generator-sent, run}
use pdftalk.Query.Emission.{closing, opening}
use pdftalk.Query.Stream.{error_of}
use pdftalk.Prompt.{Encoder}

-- The closing event of a success, or an error.
abbrev pub is_terminal : Event → Bool
is_terminal done_event = true
is_terminal (error_event code message) = true
is_terminal (meta_event is) = false
is_terminal (token_event t) = false
is_terminal (sources_event cs) = false
is_terminal fallback_event = false

-- A list with one terminal event, at its end.
abbrev pub EndsOnce : List Event → Type 0
EndsOnce [] = ⊥
EndsOnce (e ∷ []) = is_terminal e ≡ true
EndsOnce (e ∷ f ∷ es) = (is_terminal e ≡ false) × EndsOnce (f ∷ es)

EndsOnce-cons :
    (e : Event) (es : List Event) → is_terminal e ≡ false → EndsOnce es → EndsOnce (e ∷ es)
EndsOnce-cons e [] h r = absurd r
EndsOnce-cons e (f ∷ es) h r = (h, r)

EndsOnce-tokens :
    (ts : List (List ℕ)) (es : List Event) → EndsOnce es → EndsOnce (map token_event ts ++ es)
EndsOnce-tokens [] es r = r
EndsOnce-tokens (t ∷ ts) es r =
    EndsOnce-cons (token_event t) (map token_event ts ++ es) refl (EndsOnce-tokens ts es r)

EndsOnce-opening : (is : List String) (es : List Event) → EndsOnce es → EndsOnce (opening is ++ es)
EndsOnce-opening [] es r = r
EndsOnce-opening (i ∷ is) es r = EndsOnce-cons (meta_event (i ∷ is)) es refl r

error_of-terminal : (e : StreamError) → is_terminal (error_of e) ≡ true
error_of-terminal chunk_timeout = refl
error_of-terminal api_timeout = refl
error_of-terminal daily_tokens = refl
error_of-terminal daily_queries = refl
error_of-terminal breaker_is_open = refl
error_of-terminal retries_are_exhausted = refl
error_of-terminal token_is_invalid = refl
error_of-terminal token_has_expired = refl
error_of-terminal other_error = refl

closing-EndsOnce :
    (a : Answering) (ending : Ending) → ending ≢ cancelled → EndsOnce (closing a ending)
closing-EndsOnce a cancelled h = absurd (h refl)
closing-EndsOnce a (fails e) h = error_of-terminal e
closing-EndsOnce a stopped h = elim (Option-cases a.sources_raise) [
  | inr (e, broken) ↦ rw broken refl
  | inl clean ↦ elim (Bool-cases a.is_fallback) [
    | inl fallback ↦ rw (clean, fallback) (refl, (refl, refl))
    | inr plain ↦ rw (clean, plain) (refl, refl)
  ]
]

-- Unless its own request is cancelled, a client that stays as long as there are events gets one
-- terminal event, of success or of an error, and nothing after it.
pub sse_generator-EndsOnce :
    (env : Env) (enc : Encoder) (a : Answering) (db : State) (n : ℕ)
    → a.ending ≢ cancelled
    → length (transcript a) ≤ n
    → EndsOnce (run env enc a db n).1.sent
sse_generator-EndsOnce env enc a db n h fits =
    let all = sse_generator-sent env enc a db n ∙ take_all (suc n) (transcript a) (omega arith) in
    subst EndsOnce (sym all) (
      EndsOnce-opening a.missing_ids (following a)
        (EndsOnce-tokens a.tokens (closing a a.ending) (closing-EndsOnce a a.ending h)))
