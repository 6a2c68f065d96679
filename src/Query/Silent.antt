-- ===== src/Query/Silent.antt =====
-- The text that the events carry (backend/app/routers/query.py).
use pdftalk.Query.Stream.{error_of}
use pdftalk.Prelude.{
  String, Bool-cases, Option-cases, All, refl, ◌∷◌, map, take-nil, sym, zero, inl, inr, ℕ, suc, ◌≡◌,
  ap, ◌∙◌, List, [], ◌++◌, take,
}
use pdftalk.Query.Delivery.{text_of}
use pdftalk.Query.Emission.{closing, opening}
use pdftalk.Query.{
  chunk_timeout, api_timeout, daily_tokens, daily_queries, breaker_is_open, retries_are_exhausted,
  token_is_invalid, token_has_expired, other_error, stopped, fails, cancelled, StreamError, Ending,
  meta_event, token_event, sources_event, fallback_event, done_event, error_event, Event, Answering,
}

-- The text of the token events.
abbrev pub text_sent : List Event → List ℕ
text_sent [] = []
text_sent (token_event t ∷ es) = t ++ text_sent es
text_sent (meta_event is ∷ es) = text_sent es
text_sent (sources_event cs ∷ es) = text_sent es
text_sent (fallback_event ∷ es) = text_sent es
text_sent (done_event ∷ es) = text_sent es
text_sent (error_event code message ∷ es) = text_sent es

pub text_sent-tokens :
    (k : ℕ) (ts : List (List ℕ)) (es : List Event)
    → ((j : ℕ) → text_sent (take j es) ≡ [])
    → text_sent (take k (map token_event ts ++ es)) ≡ text_of (take k ts)
text_sent-tokens k [] es silent = silent k ∙ ap text_of (sym (take-nil {0} {A = List ℕ} k))
text_sent-tokens zero (t ∷ ts) es silent = refl
text_sent-tokens (suc k) (t ∷ ts) es silent = ap (◌++◌ t) (text_sent-tokens k ts es silent)

-- An event that carries no token.
abbrev pub IsSilent : Event → Type 0
IsSilent e = (es : List Event) → text_sent (e ∷ es) ≡ text_sent es

pub text_sent-silent : (j : ℕ) (es : List Event) → All IsSilent es → text_sent (take j es) ≡ []
text_sent-silent zero es h = refl
text_sent-silent (suc j) [] h = refl
text_sent-silent (suc j) (e ∷ es) h = h.0 (take j es) ∙ text_sent-silent j es h.1

error_of-IsSilent : (e : StreamError) → IsSilent (error_of e)
error_of-IsSilent chunk_timeout es = refl
error_of-IsSilent api_timeout es = refl
error_of-IsSilent daily_tokens es = refl
error_of-IsSilent daily_queries es = refl
error_of-IsSilent breaker_is_open es = refl
error_of-IsSilent retries_are_exhausted es = refl
error_of-IsSilent token_is_invalid es = refl
error_of-IsSilent token_has_expired es = refl
error_of-IsSilent other_error es = refl

pub closing-IsSilent : (a : Answering) (ending : Ending) → All IsSilent (closing a ending)
closing-IsSilent a (fails e) = (error_of-IsSilent e, tt)
closing-IsSilent a cancelled = tt
closing-IsSilent a stopped = elim (Option-cases a.sources_raise) [
  | inr (e, broken) ↦ rw broken ((λ es. refl), tt)
  | inl clean ↦ elim (Bool-cases a.is_fallback) [
    | inl h ↦ rw (clean, h) ((λ es. refl), ((λ es. refl), ((λ es. refl), tt)))
    | inr h ↦ rw (clean, h) ((λ es. refl), ((λ es. refl), tt))
  ]
]

pub text_sent-opening :
    (is : List String) (es : List Event) → text_sent (opening is ++ es) ≡ text_sent es
text_sent-opening [] es = refl
text_sent-opening (i ∷ is) es = refl
