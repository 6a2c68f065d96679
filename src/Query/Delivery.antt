-- ===== src/Query/Delivery.antt =====
-- The tokens on their way to the client (backend/app/routers/query.py).
use pdftalk.Query.Emission.{opening, at, end_part, is_stopped, end_part-sends, closing}
use pdftalk.Prelude.{
  take_all, take-append-long, take-append-short, length-map, ◌&&◌, leb, length-append, ap, ◌≤◌, ◌<◌,
  true, false, refl, sym, length, inl, inr, ℕ, zero, suc, ◌-◌, ◌≡◌, List, [], ◌∷◌, ◌++◌, map, arith,
  take, le_or_lt,
}
use pdftalk.Prelude.Action.{bind_err, catch_err, err, ◌>>◌, bind_as, catch_as}
use pdftalk.Query.Stream.{
  accumulate, stream_tokens, generate, end_stream, finish_stream, handle, emit,
}
use pdftalk.Query.{closed, Ending, Event, Sse, Answering, token_event}
use pdftalk.Chats.{State}
use mathlib.Core.List.{append-nil, append_assoc}

-- The text of some tokens.
abbrev pub text_of : List (List ℕ) → List ℕ
text_of [] = []
text_of (t ∷ ts) = t ++ text_of ts

stream_tokens-all :
    (ts : List (List ℕ)) (ending : Ending) (db : State) (out : List Event) (n : ℕ) (c : List ℕ)
    → length ts ≤ n
    → stream_tokens ts ending (at db out n c false)
      ≡ end_stream ending
          (at db (out ++ map token_event ts) (n - length ts) (c ++ text_of ts) false)
unfolding stream_tokens emit accumulate
stream_tokens-all [] ending db out n c h =
    let e : n - 0 ≡ n = omega arith in rw (e, append-nil out, append-nil c) refl
stream_tokens-all (t ∷ ts) ending db out zero c h = absurd (omega arith)
stream_tokens-all (t ∷ ts) ending db out (suc n) c h =
    let e : suc n - suc (length ts) ≡ n - length ts = omega arith in
    rw
      (
        e,
        sym (append_assoc out (token_event t ∷ []) (map token_event ts)),
        sym (append_assoc c t (text_of ts)),
      )
      (stream_tokens-all ts ending db (out ++ token_event t ∷ []) n (c ++ t) (omega arith))

stream_tokens-cut :
    (ts : List (List ℕ)) (ending : Ending) (db : State) (out : List Event) (n : ℕ) (c : List ℕ)
    → n < length ts
    → stream_tokens ts ending (at db out n c false) ≡ (
      err closed,
      at db (out ++ take (suc n) (map token_event ts)) 0 (c ++ text_of (take (suc n) ts)) false,
    )
unfolding stream_tokens emit accumulate
stream_tokens-cut [] ending db out n c h = absurd (omega arith)
stream_tokens-cut (t ∷ ts) ending db out zero c h = rw (append-nil t) refl
stream_tokens-cut (t ∷ ts) ending db out (suc n) c h =
    rw
      (
        sym (append_assoc out (token_event t ∷ []) (take (suc n) (map token_event ts))),
        sym (append_assoc c t (text_of (take (suc n) ts))),
      )
      (stream_tokens-cut ts ending db (out ++ token_event t ∷ []) n (c ++ t) (omega arith))

-- The events after the one on the missing documents.
abbrev pub following : Answering → List Event
following a = map token_event a.tokens ++ closing a a.ending

-- What a client receives that stays to the end.
abbrev pub transcript : Answering → List Event
transcript a = opening a.missing_ids ++ following a

module _ (a : Answering) (db : State) (out : List Event) (n : ℕ) where
  abbrev pub started : Sse
  started = at db out n [] false

  generate-all :
      length a.tokens ≤ n
      → generate a started
        ≡ end_part a a.ending
            (at db (out ++ map token_event a.tokens) (n - length a.tokens) (text_of a.tokens) false)
  unfolding generate
  generate-all h =
      let t =
        at db (out ++ map token_event a.tokens) (n - length a.tokens) (text_of a.tokens) false in
      let tokens = stream_tokens a.tokens a.ending in
      catch_as (tokens >> finish_stream a) (end_stream a.ending >> finish_stream a) handle started t
        (bind_as tokens (end_stream a.ending) (λ _. finish_stream a) started t
          (stream_tokens-all a.tokens a.ending db out n [] h))

  generate-cut :
      n < length a.tokens
      → (generate a started).1
        ≡ at db
            (out ++ take (suc n) (map token_event a.tokens))
            0
            (text_of (take (suc n) a.tokens))
            false
  unfolding generate handle
  generate-cut h =
      let t =
        at db (out ++ take (suc n) (map token_event a.tokens)) 0 (text_of (take (suc n) a.tokens))
          false in
      let tokens = stream_tokens a.tokens a.ending in
      ap (λ r. r.1)
        (catch_err (tokens >> finish_stream a) handle started t closed (
          bind_err tokens (λ _. finish_stream a) started t closed
            (stream_tokens-cut a.tokens a.ending db out n [] h)))

  -- The generator's state when the handlers are done.
  pub generate-sends :
      (generate a started).1
      ≡ at db
          (out ++ take (suc n) (following a))
          (n - length (following a))
          (text_of (take (suc n) a.tokens))
          (leb (length a.tokens) n && is_stopped a.ending)
  generate-sends =
      let ts = a.tokens in
      let ends = closing a a.ending in
      let l = length-map token_event ts in
      let total = length-append (map token_event ts) ends in
      elim (le_or_lt (length ts) n) [
        | inl all ↦
            let fits : leb (length ts) n ≡ true = ground arith in
            let e : suc n - length (map token_event ts) ≡ suc (n - length ts) = omega (arith, l) in
            let f : n - length (following a) ≡ n - length ts - length ends =
              omega (arith, total, l) in
            let whole : take (suc n) ts ≡ ts = take_all (suc n) ts (omega arith) in
            rw
              (
                ap (λ r. r.1) (generate-all all),
                take-append-long (suc n) (map token_event ts) ends (omega (arith, l)),
                e,
                f,
                whole,
                fits,
              )
              (rw (sym (append_assoc out (map token_event ts) (take (suc (n - length ts)) ends))) (
                end_part-sends a a.ending db (out ++ map token_event ts) (n - length ts)
                  (text_of ts)))
        | inr cut ↦
            let short : leb (length ts) n ≡ false = ground arith in
            let f : n - length (following a) ≡ 0 = omega (arith, total, l) in
            rw
              (
                generate-cut cut,
                take-append-short (suc n) (map token_event ts) ends (omega (arith, l)),
                f,
                short,
              )
              refl
      ]
