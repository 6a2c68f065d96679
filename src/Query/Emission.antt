-- ===== src/Query/Emission.antt =====
-- The events that follow the tokens, and what a client gets of them
-- (backend/app/routers/query.py).
use pdftalk.Prelude.{
  Bool, Option-cases, true, false, Bool-cases, refl, sym, ◌⊎◌, length, inl, inr, ℕ, zero, suc, ◌-◌,
  String, ◌≡◌, none, some, List, [], ◌∷◌, ◌++◌, arith, if◌then◌else◌, take,
}
use pdftalk.Prelude.Action.{catch, Result, pure, ok, err, ◌>>◌}
use pdftalk.Query.Stream.{end_stream, finish_stream, handle, sources_of, error_of, emit}
use pdftalk.Query.{
  Exit, closed, Ending, Event, Sse, Generator, Answering, fails, cancelled, meta_event,
  fallback_event, done_event, stopped,
}
use pdftalk.Chats.{State}
use mathlib.Core.List.{append-nil, append_assoc}

-- The rest of the transcript after the tokens.
abbrev pub closing : Answering → Ending → List Event
closing a stopped = elim a.sources_raise [
  | some e ↦ done_event ∷ []
  | none ↦
      sources_of a ∷ (if a.is_fallback then fallback_event ∷ done_event ∷ [] else done_event ∷ [])
]
closing a (fails e) = error_of e ∷ []
closing a cancelled = []

abbrev pub opening : List String → List Event
opening [] = []
opening (t ∷ ts) = meta_event (t ∷ ts) ∷ []

-- A state by what the client got, how much more it takes, and what was accumulated.
abbrev pub at : State → List Event → ℕ → List ℕ → Bool → Sse
at db out n content b = record {
  db = db;
  sent = out;
  patience = n;
  accumulated_content = content;
  generation_completed = b;
}

emit_all : List Event → Generator
emit_all [] = pure tt
emit_all (e ∷ []) = emit e
emit_all (e ∷ f ∷ es) = emit e >> emit_all (f ∷ es)

-- No exception that the handlers would catch.
abbrev pub IsQuiet : Result Exit (Unit {0}) → Type 0
IsQuiet r = (r ≡ ok tt) ⊎ (r ≡ err closed)

emit_all-sends :
    (es : List Event) (db : State) (out : List Event) (n : ℕ) (content : List ℕ) (b : Bool)
    → let r = emit_all es (at db out n content b) in
      IsQuiet r.0 × (r.1 ≡ at db (out ++ take (suc n) es) (n - length es) content b)
unfolding emit_all emit
emit_all-sends [] db out n content b =
    let e : n - 0 ≡ n = omega arith in rw (e, append-nil out) (inl refl, refl)
emit_all-sends (e ∷ []) db out zero content b = (inr refl, refl)
emit_all-sends (e ∷ []) db out (suc n) content b =
    let d : suc n - 1 ≡ n = omega arith in rw d (inl refl, refl)
emit_all-sends (e ∷ f ∷ es) db out zero content b =
    let d : 0 - suc (suc (length es)) ≡ 0 = omega arith in rw d (inr refl, refl)
emit_all-sends (e ∷ f ∷ es) db out (suc n) content b =
    let (quiet, ih) = emit_all-sends (f ∷ es) db (out ++ e ∷ []) n content b in
    let d : suc n - suc (suc (length es)) ≡ n - suc (length es) = omega arith in
    rw (d, sym (append_assoc out (e ∷ []) (take (suc n) (f ∷ es)))) (quiet, ih)

-- The generator's body after the tokens.
abbrev pub end_part : Answering → Ending → Generator
end_part a ending = catch (end_stream ending >> finish_stream a) handle

-- What the handlers leave alone.
quiet_passes :
    (m : Generator) (s t : Sse) → IsQuiet (m s).0 → (m s).1 ≡ t → (catch m handle s).1 ≡ t
unfolding handle
quiet_passes m s t (inl e) h = rw (e, catch) h
quiet_passes m s t (inr e) h = rw (e, catch) h

abbrev pub is_stopped : Ending → Bool
is_stopped stopped = true
is_stopped (fails e) = false
is_stopped cancelled = false

module _ (a : Answering) where
  finish_all :
      a.sources_raise ≡ none → (s : Sse) → finish_stream a s ≡ emit_all (closing a stopped) s
  unfolding finish_stream emit_all
  finish_all clean s = elim (Bool-cases a.is_fallback) [
    | inl h ↦ rw (clean, h) refl
    | inr h ↦ rw (clean, h) refl
  ]

  pub end_part-sends :
      (ending : Ending) (db : State) (out : List Event) (n : ℕ) (content : List ℕ)
      → (end_part a ending (at db out n content false)).1
        ≡ at db
            (out ++ take (suc n) (closing a ending))
            (n - length (closing a ending))
            content
            (is_stopped ending)
  unfolding end_stream handle emit_all finish_stream
  end_part-sends stopped db out n content = elim (Option-cases a.sources_raise) [
    | inl clean ↦
        let t = at db out n content true in
        let (quiet, sends) = emit_all-sends (closing a stopped) db out n content true in
        quiet_passes (end_stream stopped >> finish_stream a) (at db out n content false) _
          (rw (finish_all clean t) quiet) (rw (finish_all clean t) sends)
    | inr (e, broken) ↦ rw broken ((emit_all-sends (done_event ∷ []) db out n content true).1)
  ]
  end_part-sends (fails e) db out n content =
      (emit_all-sends (error_of e ∷ []) db out n content false).1
  end_part-sends cancelled db out n content =
      let e : n - 0 ≡ n = omega arith in rw (e, append-nil out) refl
