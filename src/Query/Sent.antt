-- ===== src/Query/Sent.antt =====
-- The events that reach the client (backend/app/routers/query.py).
use pdftalk.Query.Stream.{emit, finally, generate, announce_missing, sse_generator, save_answer}
use pdftalk.Prelude.{
  ◌-◌, take_all, take-append-long, ◌+◌, sym, ◌⊎◌, length, take-append-short, Nat-cases, zero, inl,
  inr, List-cases, ℕ, suc, ◌≡◌, ap, ◌∙◌, false, List, [], ◌++◌, arith, take,
}
use pdftalk.Chats.{State, Env}
use pdftalk.Prompt.{Encoder}
use pdftalk.Query.Delivery.{started, following, generate-sends, transcript}
use pdftalk.Query.Emission.{opening, at}
use pdftalk.Query.{closed, Event, Exit, Sse, Answering}
use pdftalk.Prelude.Action.{bind_ok, bind_err, ok, err, Result}

save_answer-sent :
    (env : Env) (enc : Encoder) (i : ℕ) (s : Sse) → (save_answer env enc i s).1.sent ≡ s.sent
unfolding save_answer
save_answer-sent env enc i s = ground arith

module _ (env : Env) (enc : Encoder) (a : Answering) (db : State) where
  -- A request with a client that asks on after `n` events.
  abbrev pub run : ℕ → Result Exit (Unit {0}) × Sse
  run n = sse_generator env enc a (at db [] n [] false)

  -- What follows the event on the missing documents.
  answer-sent :
      (out : List Event) (n : ℕ)
      → (finally (generate a) (save_answer env enc a.chat_id) (started a db out n)).1.sent
        ≡ out ++ take (suc n) (following a)
  answer-sent out n =
      save_answer-sent env enc a.chat_id (generate a (started a db out n)).1
      ∙ ap (λ (s : Sse). s.sent) (generate-sends a db out n)

  -- The generator after the event on the missing documents, which nobody catches.
  goes_on :
      (out : List Event) (n k : ℕ)
      → announce_missing a (at db [] n [] false) ≡ (ok tt, started a db out k)
      → run n ≡ finally (generate a) (save_answer env enc a.chat_id) (started a db out k)
  unfolding sse_generator
  goes_on out n k h =
      bind_ok (announce_missing a) (λ _. finally (generate a) (save_answer env enc a.chat_id))
        (at db [] n [] false) (started a db out k) tt h

  leaves_at_once :
      (out : List Event)
      → announce_missing a (at db [] zero [] false) ≡ (err closed, started a db out zero)
      → run zero ≡ (err closed, started a db out zero)
  unfolding sse_generator
  leaves_at_once out h =
      bind_err (announce_missing a) (λ _. finally (generate a) (save_answer env enc a.chat_id))
        (at db [] zero [] false) (started a db out zero) closed h

  -- The client leaves at the event on the missing documents, or the answer starts.
  abbrev pub Start : ℕ → Type 0
  Start n =
      ((suc n ≡ length (opening a.missing_ids))
        × (run n ≡ (err closed, started a db (opening a.missing_ids) zero)))
      ⊎ ((k : ℕ) × (n ≡ length (opening a.missing_ids) + k)
          × (run n
              ≡ finally (generate a) (save_answer env enc a.chat_id)
                  (started a db (opening a.missing_ids) k)))

  pub starts : (n : ℕ) → Start n
  unfolding announce_missing emit
  starts n = elim (List-cases a.missing_ids) [
    | inl nothing ↦
        inr (n, rw nothing (omega arith), goes_on (opening a.missing_ids) n n (ground arith))
    | inr (t, ts, some_are) ↦ elim (Nat-cases n) [
      | inl z ↦ inl (
        rw (some_are, z) (omega arith),
        rw z (leaves_at_once (opening a.missing_ids) (ground arith)),
      )
      | inr (k, e) ↦ inr (
        k,
        rw (some_are, e) (omega arith),
        rw e (goes_on (opening a.missing_ids) (suc k) k (ground arith)),
      )
    ]
  ]

  -- A client that takes `n` more events after its first one gets the first `n + 1` events of the
  -- transcript: the missing documents if there are any, each token, then the sources, the fallback
  -- signal if the answer is one and the closing event. Where an exception ended the tokens its
  -- error stands in place of these, where building the sources raises the closing event alone, and
  -- where the request is cancelled nothing.
  pub sse_generator-sent : (n : ℕ) → (run n).1.sent ≡ take (suc n) (transcript a)
  unfolding sse_generator announce_missing emit
  sse_generator-sent n =
      let meta = opening a.missing_ids in
      elim (starts n) [
        | inl (left, e) ↦
            ap (λ r. r.1.sent) e
            ∙ sym (take_all (suc n) meta (omega arith))
            ∙ sym (take-append-short (suc n) meta (following a) (omega arith))
        | inr (k, e, runs) ↦
            let d : suc n - length meta ≡ suc k = omega arith in
            ap (λ r. r.1.sent) runs
            ∙ answer-sent meta k
            ∙ ap (λ (i : ℕ). meta ++ take i (following a)) (sym d)
            ∙ sym (take-append-long (suc n) meta (following a) (omega arith))
      ]
