-- ===== src/Query/Question.antt =====
-- What a question changes before its answer starts (backend/app/routers/query.py).
use pdftalk.Chats.Service.{check_chat_documents, lift, fetch_chat, validate_chat_for_query}
use pdftalk.Prelude.{
  take, length, same_text, sym, ◌≢◌, none, true, false, [], ◌∷◌, ◌++◌, ◌==◌, if◌then◌else◌,
  Bool-cases, ap, ◌∙◌, String, refl, inl, inr, arith, Option-cases, ℕ, ◌≡◌, List,
}
use pdftalk.Prelude.Action.{
  ◌>>◌, Result, pure, bind_ok, bind_err, err, ok, Action, ◌>>=◌, Result-cases,
}
use pdftalk.Exceptions.{chat_not_found, db_error, PdfTalkError}
use pdftalk.Query.Ask.{
  Prepared, ask, is_untitled, save_question, prepared, counted_search, on_db, on_process, Settings,
  Asking, prepare,
}
use pdftalk.Chats.{ChatStore, Chat, is_chat_of, State, Env, complete}
use pdftalk.Prelude.Table.{update, find}
use pdftalk.Prompt.{RetrievedChunk, user, count_tokens}
use pdftalk.Prelude.Text.{codes}
use pdftalk.Retrieval.{Chunk}
use pdftalk.OpenAi.{Reply, Redis}
use pdftalk.Chats

-- Reading a chat for a query changes nothing.
validate-keeps : (env : Env) (i u : ℕ) (d : Chats.State) → (validate_chat_for_query env i u d).1 ≡ d
unfolding validate_chat_for_query fetch_chat lift
validate-keeps env i u d = elim (Option-cases (find (is_chat_of i u) d.live.chats)) [
  | inl absent ↦ ground arith
  | inr (c, present) ↦ elim (Result-cases (check_chat_documents env u c.document_ids d.live)) [
    | inl (e, refused) ↦ ground arith
    | inr (r, accepted) ↦ ground arith
  ]
]

module _ {S : Type 0} where
  -- A step that leaves the rows as they are.
  abbrev pub Keeps : {A : Type 0} → Action (Asking S) PdfTalkError A → Type 0
  Keeps m = (s : Asking S) → (m s).1.db ≡ s.db

  Keeps-bind :
      {A B : Type 0} (m : Action (Asking S) PdfTalkError A)
      (k : A → Action (Asking S) PdfTalkError B)
      → Keeps m
      → ((a : A) → Keeps (k a))
      → Keeps (m >>= k)
  Keeps-bind {A} m k hm hk s = elim (Result-cases (m s).0) [
    | inl (e, failed) ↦
        let h : m s ≡ (err e, (m s).1) = ap (λ (r : Result PdfTalkError A). (r, (m s).1)) failed in
        ap (λ r. r.1.db) (bind_err m k s (m s).1 e h) ∙ hm s
    | inr (a, success) ↦
        let h : m s ≡ (ok a, (m s).1) = ap (λ (r : Result PdfTalkError A). (r, (m s).1)) success in
        ap (λ r. r.1.db) (bind_ok m k s (m s).1 a h) ∙ hk a (m s).1 ∙ hm s
  ]

module _ {S V : Type 0} (env : Env) (redis : Redis S) (settings : Settings V)
    (client : ℕ → Reply (List (ℕ × V))) (rows : List (Chunk V)) (u i : ℕ) (question : List ℕ)
    (s : Asking S) where
  prepare-keeps : (prepare env redis settings client rows u i question s).1.db ≡ s.db
  unfolding prepare
  prepare-keeps =
      let search = λ (found : Chat × List ℕ × List String).
        on_process (counted_search env redis settings client rows s.db.live.documents u found.1) in
      let pack =
        λ (found : Chat × List ℕ × List String) (chunks : List RetrievedChunk) (t : Asking S).
          pure {S = Asking S} {E = PdfTalkError}
            (prepared env redis settings found chunks question s.db.live) t in
      Keeps-bind (on_db (validate_chat_for_query env i u)) (λ found. search found >>= pack found)
        (λ t. validate-keeps env i u t.db)
        (λ found. Keeps-bind (search found) (pack found) (λ t. refl) (λ chunks t. refl)) s

ok-err : {A : Type 0} (r : Result PdfTalkError A) (a : A) (e : PdfTalkError) → r ≡ ok a → r ≢ err e
ok-err r a e h k = cc

ok-ok : {A : Type 0} (r : Result PdfTalkError A) (a b : A) → r ≡ ok a → r ≡ ok b → a ≡ b
ok-ok r a b h k = cc

-- The rows after the question is stored.
abbrev pub with_question : {V : Type 0} → Env → Settings V → Chat → List ℕ → ChatStore → ChatStore
with_question env settings c question db = record db {
  messages =
      db.messages
      ++ record {
        id = env.uuid4;
        chat_id = c.id;
        role = user;
        content = question;
        token_count = length (settings.encoder.encode question);
        status = complete;
        created_at = env.now;
      }
        ∷ [];
  chats =
      if same_text c.title (codes "New Chat")
      then update (λ (x : Chat). x.id == c.id)
          (λ (x : Chat).
            let title = settings.strip (take 50 question) in
            if same_text x.title title then x else record x { title = title; updated_at = env.now })
          db.chats
      else db.chats;
}

save_question-commits :
    {V : Type 0} (env : Env) (settings : Settings V) (c : Chat) (question : List ℕ)
    (d : Chats.State)
    → env.commits ≡ true
    → save_question env settings c question d ≡ (
      ok tt,
      record {
        live = with_question env settings c question d.live;
        saved = with_question env settings c question d.live;
      },
    )
unfolding save_question count_tokens
save_question-commits env settings c question d up = elim (Bool-cases (is_untitled c.title)) [
  | inl h ↦ rw (h, up) refl
  | inr h ↦ rw (h, up) refl
]

save_question-fails :
    {V : Type 0} (env : Env) (settings : Settings V) (c : Chat) (question : List ℕ)
    (d : Chats.State)
    → env.commits ≡ false
    → save_question env settings c question d
      ≡ (err db_error, record d { live = with_question env settings c question d.live })
unfolding save_question count_tokens
save_question-fails env settings c question d down = elim (Bool-cases (is_untitled c.title)) [
  | inl h ↦ rw (h, down) refl
  | inr h ↦ rw (h, down) refl
]

module _ {S V : Type 0} (env : Env) (redis : Redis S) (settings : Settings V)
    (client : ℕ → Reply (List (ℕ × V))) (rows : List (Chunk V)) (u i : ℕ) (question : List ℕ)
    (s : Asking S) where
  -- A chat that is not the user's is refused before the question is counted, embedded or searched
  -- for: neither a row nor a counter changes, and no request is sent.
  pub ask_refuses :
      find (is_chat_of i u) s.db.live.chats ≡ none
      → ask env redis settings client rows u i question s ≡ (err chat_not_found, s)
  unfolding ask prepare validate_chat_for_query fetch_chat
  ask_refuses absent = ground arith

  abbrev after : Asking S
  after = (prepare env redis settings client rows u i question s).1

  kept : after.db ≡ s.db
  kept = prepare-keeps env redis settings client rows u i question s

  abbrev store : Prepared → Action (Asking S) PdfTalkError Prepared
  store p = on_db (save_question env settings p.chat question) >> pure p

  ask_stops :
      (e : PdfTalkError)
      → (prepare env redis settings client rows u i question s).0 ≡ err e
      → ask env redis settings client rows u i question s ≡ (err e, after)
  unfolding ask
  ask_stops e failed =
      bind_err (prepare env redis settings client rows u i question) store s after e
        (ap (λ (r : Result PdfTalkError Prepared). (r, after)) failed)

  ask_goes_on :
      (p : Prepared)
      → (prepare env redis settings client rows u i question s).0 ≡ ok p
      → ask env redis settings client rows u i question s ≡ store p after
  unfolding ask
  ask_goes_on p success =
      bind_ok (prepare env redis settings client rows u i question) store s after p
        (ap (λ (r : Result PdfTalkError Prepared). (r, after)) success)

  -- The question's message, title and commit, as a step of the request.
  abbrev storing : Prepared → Action (Asking S) PdfTalkError (Unit {0})
  storing p = on_db (save_question env settings p.chat question)

  abbrev rows_with : Prepared → ChatStore → Asking S
  rows_with p db =
      let live = with_question env settings p.chat question db in
      record after { db = record { live = live; saved = live } }

  store-commits :
      (p : Prepared) → env.commits ≡ true → store p after ≡ (ok p, rows_with p s.db.live)
  store-commits p up =
      bind_ok (storing p) (λ _. pure p) after (rows_with p after.db.live) tt
        (ap (λ (r : Result PdfTalkError (Unit {0}) × Chats.State). (r.0, record after { db = r.1 }))
          (save_question-commits env settings p.chat question after.db up))
      ∙ ap (λ (d : Chats.State). (Result.ok p, rows_with p d.live)) kept

  store-fails :
      (p : Prepared)
      → env.commits ≡ false
      → ((store p after).0 ≡ err db_error) × ((store p after).1.db.saved ≡ s.db.saved)
  store-fails p down =
      let live = with_question env settings p.chat question after.db.live in
      let failed =
        bind_err (storing p) (λ _. pure p) after
          (record after { db = record after.db { live = live } }) db_error
          (ap
            (λ (r : Result PdfTalkError (Unit {0}) × Chats.State). (r.0, record after { db = r.1 }))
            (save_question-fails env settings p.chat question after.db down)) in
      (ap (λ r. r.0) failed, ap (λ r. r.1.db.saved) failed ∙ ap (λ d. d.saved) kept)

  -- A question that the endpoint answers is stored: the chat has one message more, whose content is
  -- the question that the request model has validated and whose count is that of its tokens. A chat
  -- that is still called "New Chat" gets its first 50 characters, stripped, as title. One that it refuses, for whatever reason, leaves no row changed for good.
  pub ask_stores :
      let r = ask env redis settings client rows u i question s in
      ((p : Prepared)
        → r.0 ≡ ok p
        → (r.1.db.saved ≡ with_question env settings p.chat question s.db.live)
          × (r.1.db.live ≡ r.1.db.saved))
      × ((e : PdfTalkError) → r.0 ≡ err e → r.1.db.saved ≡ s.db.saved)
  ask_stores = elim (Result-cases (prepare env redis settings client rows u i question s).0) [
    | inl (e, failed) ↦
        let runs = ask_stops e failed in
        (
          λ p h. absurd (ok-err _ p e h (ap (λ r. r.0) runs)),
          λ e' h. ap (λ r. r.1.db.saved) runs ∙ ap (λ d. d.saved) kept,
        )
    | inr (p, success) ↦ elim (Bool-cases env.commits) [
      | inl up ↦
          let runs = ask_goes_on p success ∙ store-commits p up in
          (
            λ p' h.
                let same = ok-ok _ p p' (ap (λ r. r.0) runs) h in
                (
                  ap (λ r. r.1.db.saved) runs
                      ∙ ap (λ (q : Prepared). with_question env settings q.chat question s.db.live)
                          same,
                  ap (λ r. r.1.db.live) runs ∙ sym (ap (λ r. r.1.db.saved) runs),
                ),
            λ e h. absurd (ok-err _ p e (ap (λ r. r.0) runs) h),
          )
      | inr down ↦
          let runs = ask_goes_on p success in
          let (raised_, same) = store-fails p down in
          (
            λ p' h. absurd (ok-err _ p' db_error h (ap (λ r. r.0) runs ∙ raised_)),
            λ e h. ap (λ r. r.1.db.saved) runs ∙ same,
          )
    ]
  ]
