-- ===== src/Tests/Questions.antt =====
-- A question on a chat, and its answer (backend/app/routers/query.py).
use pdftalk.OpenAi.{
  Redis, Process, Reply, answered, guarded_call, attempt_call, increment_counter, is_circuit_open,
  on_reply, open_circuit, record_failure, record_success, sleep, status_failure,
}
use pdftalk.Prelude.Table.{update, find}
use pdftalk.Prelude.{
  false, ℕ, ◌+◌, String, Option, some, List, if◌then◌else◌, str_eq, ◌≡◌, refl, ◌≢◌, true, none, [],
  ◌∷◌, ◌++◌, arith, ◌==◌,
}
use pdftalk.Admin.{Desk}
use pdftalk.Admin.Lifetime.{DeleteForgets}
use pdftalk.Tests.Calls.{small, Keys, shaky, str_eq_refl}
use pdftalk.Prelude.Action.{ok, err}
use pdftalk.Query.Ask.{
  Settings, Asking, Prepared, ask, question_message, prepare, counted_search, save_question,
  is_fallback_answer,
}
use pdftalk.Query.Question.{ask_stores, with_question}
use pdftalk.OpenAi.Usage.{
  Limits, check_and_increment_query_usage, delta, increment_counter_by, create_embeddings, guarded,
}
use pdftalk.Tests.Vectors.{by_difference, pieces}
use pdftalk.Exceptions.{PdfTalkError}
use pdftalk.Prompt.{
  assistant, system, user, build_messages, build_history_block, build_context_block, chunk_total,
  count_tokens,
}
use pdftalk.Query.Silent.{text_sent}
use pdftalk.Chats.{Message, cut_short, complete, is_chat_of, parse_all}
use pdftalk.Query.{cancelled, meta_event, token_event, Answering, stopped}
use pdftalk.Query.Sent.{run, sse_generator-sent}
use pdftalk.Tests.Chatting.{rows_of_chats, chatting, today, talk}
use pdftalk.Query.Terminal.{EndsOnce, sse_generator-EndsOnce}
use pdftalk.Tests.Texts.{plain}
use pdftalk.Query.Stored.{sse_generator-saves, done_after}
use pdftalk.Query.Exchange.{exchanged, stream_of, exchange_stores}
use pdftalk.Query.Answer.{LlmStream}
use pdftalk.Chats.Service.{
  validate_chat_for_query, fetch_chat, lift, check_chat_documents, chat_messages,
}
use pdftalk.Retrieval.{
  retrieve_similar_chunks, run_similarity_search, matching_rows, relevant_or_all,
}
use pdftalk.Chats

-- An answer of two tokens.
abbrev two_tokens : Answering
two_tokens = record {
  chat_id = 5;
  tokens = (72 ∷ 105 ∷ []) ∷ (33 ∷ []) ∷ [];
  ending = stopped;
  included_chunks = [];
  missing_ids = "D1" ∷ [];
  is_fallback = true;
  sources_raise = none;
}

-- The client leaves at the first token: the event on missing documents is the one before.
sse_generator-sent_example :
    (run today plain two_tokens chatting 1).1.sent
    ≡ meta_event ("D1" ∷ []) ∷ token_event (72 ∷ 105 ∷ []) ∷ []
sse_generator-sent_example = sse_generator-sent today plain two_tokens chatting 1

sse_generator-saves_example :
    let r = run today plain two_tokens chatting 1 in
    (text_sent r.1.sent ≡ [] → r.1.db ≡ chatting)
    × (text_sent r.1.sent ≢ []
        → (m : Chats.Message) × (r.1.db.saved.messages ≡ rows_of_chats.messages ++ m ∷ [])
          × (r.1.db.saved.chats
              ≡ update (λ c. c.id == 5) (λ c. record c { updated_at = 900 }) rows_of_chats.chats)
          × (r.1.db.live ≡ r.1.db.saved)
          × (m.chat_id ≡ 5)
          × (m.role ≡ assistant)
          × (m.content ≡ text_sent r.1.sent)
          × (m.status ≡ cut_short))
sse_generator-saves_example = sse_generator-saves today plain two_tokens chatting 1 refl

runs_to_its_end : two_tokens.ending ≢ cancelled
runs_to_its_end h = ground arith

sse_generator-EndsOnce_example : EndsOnce (run today plain two_tokens chatting 9).1.sent
sse_generator-EndsOnce_example =
    sse_generator-EndsOnce today plain two_tokens chatting 9 runs_to_its_end (omega arith)

abbrev limits : Limits
limits = record {
  max_daily_tokens = 1000;
  max_daily_queries = 2;
  seconds_until_midnight = 7200;
  key_daily_token_quota = λ u. "quota:tokens";
  key_daily_token_stats = "admin:stats:tokens";
  key_daily_query_quota = λ u. "quota:queries";
}

abbrev settings : Settings ℕ
settings = record {
  search = by_difference;
  limits = limits;
  encoder = plain;
  strip = λ t. t;
  system_prompt = 83 ∷ [];
  no_content_hint = 78 ∷ [];
  context_budget = 100;
  history_budget = 100;
  top_k = 5;
}

-- Every request for an embedding is answered with the vector 0.
abbrev embeds : ℕ → Reply (List (ℕ × ℕ))
embeds n = answered ((0, 0) ∷ [])

abbrev asking : Asking Keys
asking = record { db = chatting; process = record shaky { store = [] } }

ask_stores_example :
    let r = ask today small settings embeds pieces 7 5 (87 ∷ 63 ∷ []) asking in
    ((p : Prepared)
      → r.0 ≡ ok p
      → (r.1.db.saved ≡ with_question today settings p.chat (87 ∷ 63 ∷ []) rows_of_chats)
        × (r.1.db.live ≡ r.1.db.saved))
    × ((e : PdfTalkError) → r.0 ≡ err e → r.1.db.saved ≡ rows_of_chats)
ask_stores_example = ask_stores today small settings embeds pieces 7 5 (87 ∷ 63 ∷ []) asking

-- Values beside expiries, the newest entry first; the clock stands still.
abbrev Timed : Type 0
Timed = List (String × ℕ) × List (String × Option ℕ)

abbrev value_of : String → List (String × ℕ) → ℕ
value_of key [] = 0
value_of key ((k, v) ∷ es) = let rest = value_of key es in if str_eq k key then v else rest

abbrev expiry_of : String → List (String × Option ℕ) → Option ℕ
expiry_of key [] = none
expiry_of key ((k, e) ∷ es) = let rest = expiry_of key es in if str_eq k key then e else rest

abbrev add_to : String → ℕ → Timed → ℕ × Timed
add_to key n (vs, es) = (value_of key vs + n, ((key, value_of key vs + n) ∷ vs, es))

abbrev timed : Redis Timed
timed = record {
  get = λ key now s. some (value_of key s.0);
  set_ex = λ key v n now s. ((key, v) ∷ s.0, (key, some n) ∷ s.1);
  delete = λ key s. ((key, 0) ∷ s.0, (key, none) ∷ s.1);
  incr = λ key now s. add_to key 1 s;
  expire = λ key n now s. (s.0, (key, some n) ∷ s.1);
  incr_by = λ key n now s. add_to key n s;
  persist = λ key now s. (s.0, (key, none) ∷ s.1);
  zincr_by = λ key n member s. s;
  ttl = λ key now s. expiry_of key s.1;
}

-- The second question of a day.
abbrev asked_once : Process Timed
asked_once = record {
  store = (("quota:queries", 1) ∷ [], ("quota:queries", some 7200) ∷ []);
  now = 50;
  calls = 0;
  sleeps = [];
}

abbrev front_desk : Desk
front_desk = record {
  now = 100;
  token_urlsafe = 66;
  admin_token = some "sesame";
  session_key = λ t. "admin:session";
}

small-DeleteForgets : DeleteForgets small
small-DeleteForgets key t s = rw (str_eq_refl key) (ground arith)

-- What the checks and the search make of the question "W?" on the chat.
abbrev first_question : Prepared
first_question = record {
  chat = talk;
  entries =
      record { role = system; content = 83 ∷ [] }
      ∷ record { role = user; content = 72 ∷ [] }
      ∷ record { role = user; content = 72 ∷ [] }
      ∷ record {
        role = user;
        content =
            67 ∷ 111 ∷ 110 ∷ 116 ∷ 101 ∷ 120 ∷ 116 ∷ 58 ∷ 10 ∷ 91 ∷ 97 ∷ 46 ∷ 112 ∷ 100 ∷ 102 ∷ 32
            ∷ 124 ∷ 32 ∷ 1 ∷ 93 ∷ 10 ∷ 120 ∷ 10 ∷ 10 ∷ 81 ∷ 117 ∷ 101 ∷ 115 ∷ 116 ∷ 105 ∷ 111 ∷ 110
            ∷ 58 ∷ 32 ∷ 87 ∷ 63 ∷ [];
      }
      ∷ [];
  included_chunks =
      record {
        chunk_id = 1;
        document_id = 1;
        chunk_index = 1;
        text = 120 ∷ [];
        token_count = 1;
        filename = 97 ∷ 46 ∷ 112 ∷ 100 ∷ 102 ∷ [];
        distance = 2;
      }
      ∷ [];
  missing_ids = "D1" ∷ [];
  is_fallback = false;
}

accepted_question :
    (ask today small settings embeds pieces 7 5 (87 ∷ 63 ∷ []) asking).0 ≡ ok first_question
unfolding ask prepare validate_chat_for_query fetch_chat lift check_chat_documents parse_all
    counted_search check_and_increment_query_usage increment_counter_by retrieve_similar_chunks
    create_embeddings guarded guarded_call save_question build_messages is_fallback_answer
    build_history_block build_context_block chat_messages run_similarity_search attempt_call
    increment_counter is_circuit_open on_reply open_circuit record_failure record_success sleep
    status_failure chunk_total count_tokens matching_rows relevant_or_all
accepted_question = refl

-- The model answers "Hi!" in two tokens.
abbrev says_hi : ℕ → Reply LlmStream
says_hi n = answered (delta (some (72 ∷ 105 ∷ [])) ∷ delta (some (33 ∷ [])) ∷ [], stopped)

exchange_stores_example :
    let out =
      exchanged today today small settings embeds says_hi none pieces 7 5 (87 ∷ 63 ∷ []) 9 asking in
    let t = text_sent out.0 in
    let saved = out.1.db.saved.messages in
    let q = question_message today settings 5 (87 ∷ 63 ∷ []) in
    (find (is_chat_of 5 7) rows_of_chats.chats ≡ some talk)
    × (t ≡ [] → saved ≡ rows_of_chats.messages ++ q ∷ [])
    × (t ≢ []
        → (m : Chats.Message) × (saved ≡ rows_of_chats.messages ++ (q ∷ m ∷ []))
          × (m.chat_id ≡ 5)
          × (m.role ≡ assistant)
          × (m.content ≡ t)
          × (m.status ≡ (
              if done_after today plain
                (stream_of today today small settings embeds says_hi none pieces 7 5
                  (87 ∷ 63 ∷ [])
                  9
                  asking
                  first_question)
                (ask today small settings embeds pieces 7 5 (87 ∷ 63 ∷ []) asking).1.db
                9
              then complete
              else cut_short)))
exchange_stores_example =
    exchange_stores today today small settings embeds says_hi none pieces 7 5 (87 ∷ 63 ∷ []) 9
      asking refl first_question accepted_question
