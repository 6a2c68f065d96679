-- ===== src/Query/Exchange.antt =====
-- A question and its answer in one request (`ask` of backend/app/routers/query.py, from the checks to
-- the end of the stream).
use pdftalk.Prelude.{
  ◌≢◌, true, ◌∷◌, ◌++◌, if◌then◌else◌, Option, [], sym, ap, ◌∙◌, ℕ, String, ◌≡◌, inl, inr, some,
  List, arith, Option-cases,
}
use pdftalk.OpenAi.{Reply, Redis, guarded_call}
use pdftalk.Query.Stored.{done_after, sse_generator-saves}
use pdftalk.Query.Silent.{text_sent}
use pdftalk.Prelude.Table.{find-test, find}
use pdftalk.Prelude.Action.{
  err, ◌>>◌, bind_ok, bind_err, pure, Action, ◌>>=◌, Result-cases, ok, Result,
}
use pdftalk.Query.Ask.{
  save_question, ask, prepare, Settings, Asking, Prepared, on_db, on_process, prepared,
  counted_search, question_message,
}
use pdftalk.Chats.{Env, Chat, State, is_chat_of, ChatStore, complete, cut_short}
use pdftalk.Chats.Service.{validate_chat_for_query, fetch_chat, lift, check_chat_documents}
use pdftalk.Retrieval.{Chunk}
use pdftalk.Exceptions.{PdfTalkError}
use pdftalk.Prompt.{RetrievedChunk, assistant, count_tokens}
use pdftalk.Query.{Event, StreamError, Answering}
use pdftalk.Query.Answer.{LlmStream, respond, answering, opened}
use pdftalk.Query.Question.{ask_stores}
use mathlib.Core.List.{append_assoc}
use pdftalk.Chats

-- A chain that succeeds has steps that succeed.
bind-inverts :
    {S E A B : Type 0} (m : Action S E A) (k : A → Action S E B) (s : S) (b : B)
    → ((m >>= k) s).0 ≡ ok b
    → (a : A) × ((m s).0 ≡ ok a) × ((k a (m s).1).0 ≡ ok b)
bind-inverts {E = E} m k s b h = elim (Result-cases (m s).0) [
  | inl (e, failed) ↦
      let out = bind_err m k s (m s).1 e (ap (λ r. (r, (m s).1)) failed) in
      absurd (cc (sym (ap (λ r. r.0) out) ∙ h))
  | inr (a, success) ↦
      let out = bind_ok m k s (m s).1 a (ap (λ r. (r, (m s).1)) success) in
      (a, success, sym (ap (λ r. r.0) out) ∙ h)
]

validated_chat :
    (env : Env) (i u : ℕ) (d : Chats.State) (found : Chat × List ℕ × List String)
    → (validate_chat_for_query env i u d).0 ≡ ok found
    → find (is_chat_of i u) d.live.chats ≡ some found.0
unfolding validate_chat_for_query fetch_chat lift
validated_chat env i u d found h = elim (Option-cases (find (is_chat_of i u) d.live.chats)) [
  | inl absent ↦ absurd (ground arith)
  | inr (c, present) ↦ elim (Result-cases (check_chat_documents env u c.document_ids d.live)) [
    | inl (e, refused) ↦ absurd (ground arith)
    | inr (r, accepted) ↦ ground arith
  ]
]

ok_injective : {E A : Type 0} (a b : A) → ◌≡◌ {A = Result E A} (ok a) (ok b) → a ≡ b
ok_injective a b h = cc

module _ {S V : Type 0} (env : Env) (redis : Redis S) (settings : Settings V)
    (client : ℕ → Reply (List (ℕ × V))) (rows : List (Chunk V)) (u i : ℕ) (question : List ℕ)
    (s : Asking S) where
  prepared_chat :
      (p : Prepared)
      → (prepare env redis settings client rows u i question s).0 ≡ ok p
      → find (is_chat_of i u) s.db.live.chats ≡ some p.chat
  unfolding prepare
  prepared_chat p h =
      let search = λ (found : Chat × List ℕ × List String).
        on_process (counted_search env redis settings client rows s.db.live.documents u found.1) in
      let pack =
        λ (found : Chat × List ℕ × List String) (chunks : List RetrievedChunk) (t : Asking S).
          pure {S = Asking S} {E = PdfTalkError}
            (prepared env redis settings found chunks question s.db.live) t in
      let (found, valid, rest) =
        bind-inverts (on_db (validate_chat_for_query env i u))
          (λ found. search found >>= pack found) s p h in
      let (chunks, searched, packed) = bind-inverts (search found) (pack found) _ p rest in
      validated_chat env i u s.db found valid
      ∙ ap (λ (q : Prepared). some q.chat)
          (ok_injective (prepared env redis settings found chunks question s.db.live) p packed)

  -- The endpoint that accepts has found the chat under its id and its owner.
  ask_chat :
      (p : Prepared)
      → (ask env redis settings client rows u i question s).0 ≡ ok p
      → find (is_chat_of i u) s.db.live.chats ≡ some p.chat
  unfolding ask
  ask_chat p h =
      let store = λ (q : Prepared). on_db (save_question env settings q.chat question) >> pure q in
      let (q, ready, rest) =
        bind-inverts (prepare env redis settings client rows u i question) store s p h in
      let t = (prepare env redis settings client rows u i question s).1 in
      let (done, stored, last) =
        bind-inverts (on_db (save_question env settings q.chat question)) (λ _. pure q) t p rest in
      prepared_chat q ready ∙ ap (λ (x : Prepared). some x.chat) (ok_injective q p last)

-- The response: what `ask` raises is an answer without a stream.
abbrev answer_asked :
    {S V : Type 0} (later : Env) (redis : Redis S) (settings : Settings V)
    (llm : ℕ → Reply LlmStream) (sources_raise : Option StreamError) (u patience : ℕ)
    → Result PdfTalkError Prepared
    → Asking S
    → List Event × Asking S
answer_asked later redis settings llm sources_raise u patience (ok p) s =
    respond later redis settings llm sources_raise u p patience s
answer_asked later redis settings llm sources_raise u patience (err e) s = ([], s)

-- The checks, the question's commit, and the stream with its own commit at a later time.
unfoldable pub exchange :
    {S V : Type 0} (env later : Env) (redis : Redis S) (settings : Settings V)
    (client : ℕ → Reply (List (ℕ × V))) (llm : ℕ → Reply LlmStream)
    (sources_raise : Option StreamError) (rows : List (Chunk V)) (u i : ℕ) (question : List ℕ)
    (patience : ℕ)
    → Asking S
    → List Event × Asking S
exchange env later redis settings client llm sources_raise rows u i question patience s =
    let (r, s') = ask env redis settings client rows u i question s in
    answer_asked later redis settings llm sources_raise u patience r s'

module _ {S V : Type 0} (env later : Env) (redis : Redis S) (settings : Settings V)
    (client : ℕ → Reply (List (ℕ × V))) (llm : ℕ → Reply LlmStream)
    (sources_raise : Option StreamError) (rows : List (Chunk V)) (u i : ℕ) (question : List ℕ)
    (patience : ℕ) (s : Asking S) where
  abbrev pub exchanged : List Event × Asking S
  exchanged =
      exchange env later redis settings client llm sources_raise rows u i question patience s

  accepted :
      (p : Prepared)
      → (ask env redis settings client rows u i question s).0 ≡ ok p
      → exchanged
        ≡ respond later redis settings llm sources_raise u p patience
            (ask env redis settings client rows u i question s).1
  unfolding exchange
  accepted p h =
      ap
        (λ r.
          answer_asked later redis settings llm sources_raise u patience r
            (ask env redis settings client rows u i question s).1)
        h

  owned_id : (c : Chat) → find (is_chat_of i u) s.db.live.chats ≡ some c → c.id ≡ i
  owned_id c h = ground (arith, find-test (is_chat_of i u) s.db.live.chats c h)

  -- The stream of an accepted question.
  abbrev pub stream_of : Prepared → Answering
  stream_of p =
      let asked = (ask env redis settings client rows u i question s).1 in
      answering p sources_raise (opened (guarded_call redis llm asked.process).0)

  -- A question that is accepted is asked on a chat of the user, and after it the chat has, beside what
  -- was there, the question and then the answer, committed: the answer is the text of the token
  -- events that were sent, COMPLETE exactly when the stream ended by itself and the client asked on
  -- after the last token. With no text sent the chat has the question alone. The answer's commit is
  -- accepted.
  pub exchange_stores :
      later.commits ≡ true
      → (p : Prepared) → (ask env redis settings client rows u i question s).0 ≡ ok p
      → let t = text_sent exchanged.0 in
        let saved = exchanged.1.db.saved.messages in
        let q = question_message env settings i question in
        (find (is_chat_of i u) s.db.live.chats ≡ some p.chat)
        × (t ≡ [] → saved ≡ s.db.live.messages ++ q ∷ [])
        × (t ≢ []
            → (m : Chats.Message) × (saved ≡ s.db.live.messages ++ (q ∷ m ∷ []))
              × (m.chat_id ≡ i)
              × (m.role ≡ assistant)
              × (m.content ≡ t)
              × (m.status ≡ (
                  if done_after later settings.encoder
                    (stream_of p)
                    (ask env redis settings client rows u i question s).1.db
                    patience
                  then complete
                  else cut_short)))
  unfolding respond count_tokens
  exchange_stores up p h =
      let db = (ask env redis settings client rows u i question s).1.db in
      let a = stream_of p in
      let found = ask_chat env redis settings client rows u i question s p h in
      let same : p.chat.id ≡ i = owned_id p.chat found in
      let runs = accepted p h in
      let (saved, live) = (ask_stores env redis settings client rows u i question s).0 p h in
      let asked : db.live.messages
          ≡ s.db.live.messages ++ question_message env settings i question ∷ [] =
        ap (λ (d : ChatStore). d.messages) (live ∙ saved)
        ∙ ap (λ (n : ℕ). s.db.live.messages ++ question_message env settings n question ∷ [])
            same in
      let (silent, spoken) = sse_generator-saves later settings.encoder a db patience up in
      let texts = ap (λ r. text_sent r.0) runs in
      (
        found,
        λ e.
            ap (λ r. r.1.db.saved.messages) runs
            ∙ (ap (λ (d : Chats.State). d.saved.messages) (silent (sym texts ∙ e))
                ∙ (ap (λ (d : ChatStore). d.messages) (sym live) ∙ asked)),
        λ ne.
            let (m, rows', chats', live', chat', role', text', status') =
              spoken (λ z. ne (texts ∙ z)) in
            (
              m,
              ap (λ r. r.1.db.saved.messages) runs
                  ∙ (rows'
                      ∙ (ap (λ (x : List Chats.Message). x ++ m ∷ []) asked
                          ∙ append_assoc s.db.live.messages
                              (question_message env settings i question ∷ []) (m ∷ []))),
              chat' ∙ same,
              role',
              text' ∙ sym texts,
              status',
            ),
      )
