-- ===== src/Query/Stored.antt =====
-- What the chat keeps of an answer (backend/app/routers/query.py).
use pdftalk.Query.Sent.{run, sse_generator-sent, starts}
use pdftalk.Query.Silent.{
  text_sent-tokens, text_sent-silent, closing-IsSilent, text_sent-opening, text_sent,
}
use pdftalk.Query.Stream.{assistant_message, with_answer, generate, save_answer}
use pdftalk.Prelude.{
  Bool, ◌&&◌, leb, ◌==◌, if◌then◌else◌, ◌≢◌, true, refl, ◌∷◌, ◌-◌, take-append-long, ◌+◌, sym,
  length, zero, inl, inr, ℕ, suc, ◌≡◌, ap, ◌∙◌, [], ◌++◌, arith, take,
}
use pdftalk.Chats.{complete, cut_short, State, Env, Message}
use pdftalk.Prompt.{assistant, Encoder}
use pdftalk.Query.Delivery.{text_of, started, following, generate-sends, transcript}
use pdftalk.Query.Emission.{is_stopped, closing, opening}
use pdftalk.Prelude.Table.{update}
use mathlib.Core.List.{append-nil}
use pdftalk.Query.{closed, Exit, Sse, Answering}
use pdftalk.Prelude.Action.{err, Result}

save_answer-saves :
    (env : Env) (enc : Encoder) (i : ℕ) (s : Sse)
    → env.commits ≡ true
    → s.accumulated_content ≢ []
    → (save_answer env enc i s).1.db
      ≡ record { live = with_answer env enc i s; saved = with_answer env enc i s }
unfolding save_answer
save_answer-saves env enc i s up h = ground arith

save_answer-skips :
    (env : Env) (enc : Encoder) (i : ℕ) (s : Sse)
    → s.accumulated_content ≡ []
    → (save_answer env enc i s).1.db ≡ s.db
unfolding save_answer
save_answer-skips env enc i s h = ground arith

module _ (env : Env) (enc : Encoder) (a : Answering) (db : State) where
  text_delivered :
      (n k : ℕ)
      → n ≡ length (opening a.missing_ids) + k
      → text_sent (take (suc n) (transcript a)) ≡ text_of (take (suc k) a.tokens)
  text_delivered n k e =
      let meta = opening a.missing_ids in
      let d : suc n - length meta ≡ suc k = omega arith in
      ap text_sent (take-append-long (suc n) meta (following a) (omega arith))
      ∙ ap (λ (i : ℕ). text_sent (meta ++ take i (following a))) d
      ∙ text_sent-opening a.missing_ids (take (suc k) (following a))
      ∙ text_sent-tokens (suc k) a.tokens (closing a a.ending)
          (λ j. text_sent-silent j (closing a a.ending) (closing-IsSilent a a.ending))

  abbrev pub done_after : ℕ → Bool
  done_after n = leb (length (opening a.missing_ids) + length a.tokens) n && is_stopped a.ending

  abbrev generated : ℕ → Sse
  generated k = (generate a (started a db (opening a.missing_ids) k)).1

  nothing_sent :
      (n : ℕ)
      → run env enc a db n ≡ (err closed, started a db (opening a.missing_ids) zero)
      → text_sent (run env enc a db n).1.sent ≡ []
  nothing_sent n e =
      ap (λ (r : Result Exit (Unit {0}) × Sse). text_sent r.1.sent) e
      ∙ ap text_sent (sym (append-nil (opening a.missing_ids)))
      ∙ text_sent-opening a.missing_ids []

  sent_is_kept :
      (n k : ℕ)
      → n ≡ length (opening a.missing_ids) + k
      → text_sent (run env enc a db n).1.sent ≡ (generated k).accumulated_content
  sent_is_kept n k e =
      ap text_sent (sse_generator-sent env enc a db n)
      ∙ text_delivered n k e
      ∙ sym
          (ap (λ (s : Sse). s.accumulated_content) (generate-sends a db (opening a.missing_ids) k))

  completes :
      (n k : ℕ)
      → n ≡ length (opening a.missing_ids) + k
      → (generated k).generation_completed ≡ done_after n
  completes n k e =
      let l = length (opening a.missing_ids) in
      let same : leb (length a.tokens) k ≡ leb (l + length a.tokens) n = ground arith in
      ap (λ (s : Sse). s.generation_completed) (generate-sends a db (opening a.missing_ids) k)
      ∙ ap (λ b. b && is_stopped a.ending) same

  -- With no text sent the rows are as before. Otherwise, as the commit succeeds, the chat gets one
  -- message, with the text of the token events that were sent and no other; it is COMPLETE exactly
  -- when the tokens ended by themselves and the client asked on after the last of them. The chat's
  -- row gets the time, and all of it is committed.
  pub sse_generator-saves :
      (n : ℕ)
      → env.commits ≡ true
      → let t = text_sent (run env enc a db n).1.sent in
        (t ≡ [] → (run env enc a db n).1.db ≡ db)
        × (t ≢ []
            → (m : Message) × ((run env enc a db n).1.db.saved.messages
                ≡ db.live.messages ++ m ∷ [])
              × ((run env enc a db n).1.db.saved.chats
                  ≡ update
                      (λ c. c.id == a.chat_id)
                      (λ c. record c { updated_at = env.now })
                      db.live.chats)
              × ((run env enc a db n).1.db.live ≡ (run env enc a db n).1.db.saved)
              × (m.chat_id ≡ a.chat_id)
              × (m.role ≡ assistant)
              × (m.content ≡ t)
              × (m.status ≡ (if done_after n then complete else cut_short)))
  sse_generator-saves n up = elim (starts env enc a db n) [
    | inl (left, e) ↦ (λ h. ap (λ r. r.1.db) e, λ h. absurd (h (nothing_sent n e)))
    | inr (k, e, runs) ↦
        let g = generated k in
        let kept = sent_is_kept n k e in
        let same_db : g.db ≡ db =
          ap (λ (s : Sse). s.db) (generate-sends a db (opening a.missing_ids) k) in
        let m = assistant_message env enc a.chat_id g in
        (
          λ h.
              ap (λ r. r.1.db) runs
              ∙ save_answer-skips env enc a.chat_id g (sym kept ∙ h)
              ∙ same_db,
          λ h.
              let stored : (run env enc a db n).1.db ≡ _ =
                ap (λ r. r.1.db) runs
                ∙ save_answer-saves env enc a.chat_id g up (λ z. h (kept ∙ z)) in
              (
                m,
                ap (λ d. d.saved.messages) stored
                    ∙ ap (λ (d : State). d.live.messages ++ m ∷ []) same_db,
                ap (λ d. d.saved.chats) stored
                    ∙ ap
                        (λ (d : State).
                          update (λ c. c.id == a.chat_id) (λ c. record c { updated_at = env.now })
                            d.live.chats)
                        same_db,
                ap (λ d. d.live) stored ∙ sym (ap (λ d. d.saved) stored),
                refl,
                refl,
                sym kept,
                ap (λ b. if b then complete else cut_short) (completes n k e),
              ),
        )
  ]
