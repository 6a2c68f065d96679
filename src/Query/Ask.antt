-- ===== src/Query/Ask.antt =====
-- `ask` of backend/app/routers/query.py: what happens before the stream starts, and the answer.
use pdftalk.Prelude.{
  ◌==◌, ℕ, String, Bool, true, false, not, ◌&&◌, ◌||◌, Option, none, some, List, [], ◌∷◌, ◌++◌, map,
  ltb, if◌then◌else◌, length, take, same_text,
}
use pdftalk.Chats.Service.{
  on_chats, retitle, on_messages, new_chat_title, validate_chat_for_query, chat_messages,
}
use pdftalk.Prelude.Table.{update}
use pdftalk.Chats.{ChatStore, Service, Env, Chat, Message, complete, commit, State}
use pdftalk.Prompt.{count_tokens, Encoder, build_messages, user, Entry, RetrievedChunk}
use pdftalk.Prelude.Action.{Action, pure, ◌>>=◌, ◌>>◌}
use pdftalk.OpenAi.{Redis, Process, Reply}
use pdftalk.OpenAi.Usage.{Limits, check_and_increment_query_usage}
use pdftalk.Retrieval.{Search, Chunk, retrieve_similar_chunks, is_relevant}
use pdftalk.Exceptions.{PdfTalkError}
use pdftalk.Prompt
use pdftalk.Chats
use pdftalk.Document

-- The texts and numbers that the settings give, and the functions of libraries.
pub record Settings (V : Type 0) : Type 0 where
  pub search : Search V
  pub limits : Limits
  pub encoder : Encoder
  pub strip : List ℕ → List ℕ
  pub system_prompt : List ℕ
  pub no_content_hint : List ℕ
  pub context_budget : ℕ
  pub history_budget : ℕ
  pub top_k : ℕ

pub record Asking (S : Type 0) : Type 0 where
  pub db : State
  pub process : Process S

-- What the prompt is made of.
pub record Prepared : Type 0 where
  pub chat : Chat
  pub entries : List Entry
  pub included_chunks : List RetrievedChunk
  pub missing_ids : List String
  pub is_fallback : Bool

-- `QueryRequest.validate_question`, of backend/app/models/query.py
unfoldable pub validate_question : (List ℕ → List ℕ) → List ℕ → Option (List ℕ)
validate_question strip v = elim (strip v) [
  | [] ↦ none
  | x ∷ xs ↦ if ltb 1000 (length (x ∷ xs)) then none else some (x ∷ xs)
]

abbrev pub is_empty : List RetrievedChunk → Bool
is_empty [] = true
is_empty (c ∷ cs) = false

abbrev pub all_far_off : ℕ → List RetrievedChunk → Bool
all_far_off max_distance [] = true
all_far_off max_distance (c ∷ cs) = not (is_relevant max_distance c) && all_far_off max_distance cs

-- `_is_fallback`
unfoldable pub is_fallback_answer : ℕ → List RetrievedChunk → List RetrievedChunk → Bool
is_fallback_answer max_distance chunks included =
    is_empty included || (not (is_empty chunks) && all_far_off max_distance chunks)

abbrev pub to_prompt : Chats.Message → Prompt.Message
to_prompt m = record { role = m.role; content = m.content; token_count = m.token_count }

module _ {S : Type 0} where
  abbrev pub on_db : {A : Type 0} → Chats.Service A → Action (Asking S) PdfTalkError A
  on_db m s = let (r, d) = m s.db in (r, record s { db = d })

  abbrev pub on_process :
      {A : Type 0} → Action (Process S) PdfTalkError A → Action (Asking S) PdfTalkError A
  on_process m s = let (r, p) = m s.process in (r, record s { process = p })

abbrev pub is_untitled : List ℕ → Bool
is_untitled title = same_text title new_chat_title

module _ {V : Type 0} (env : Env) (settings : Settings V) where
  abbrev pub question_message : ℕ → List ℕ → Chats.Message
  question_message chat_id question = record {
    id = env.uuid4;
    chat_id = chat_id;
    role = user;
    content = question;
    token_count = count_tokens settings.encoder question;
    status = complete;
    created_at = env.now;
  }

  -- `chat.title = body.question[:50].strip()`
  abbrev pub title_of : List ℕ → List ℕ
  title_of question = settings.strip (take 50 question)

  unfoldable pub save_question : Chat → List ℕ → Chats.Service (Unit {0})
  save_question chat question = do
    on_messages (λ ms. ms ++ question_message chat.id question ∷ [])
    if is_untitled chat.title
        then on_chats (update (λ c. c.id == chat.id) (retitle env (title_of question)))
        else pure tt
    Chats.commit env

module _ {S V : Type 0} (env : Env) (redis : Redis S) (settings : Settings V) where
  abbrev pub build :
      List RetrievedChunk → List ℕ → List Chats.Message → List Entry × List RetrievedChunk
  build chunks question history =
      build_messages settings.encoder settings.system_prompt settings.no_content_hint
        settings.context_budget settings.history_budget chunks question (map to_prompt history)

  abbrev pub prepared :
      Chat × List ℕ × List String → List RetrievedChunk → List ℕ → ChatStore → Prepared
  prepared (chat, valid, missing) chunks question db =
      let (entries, included) = build chunks question (chat_messages chat.id db) in
      record {
        chat = chat;
        entries = entries;
        included_chunks = included;
        missing_ids = missing;
        is_fallback = is_fallback_answer settings.search.max_distance chunks included;
      }

  -- The quota, then the search. `rows` is the table of chunks.
  unfoldable pub counted_search :
      (ℕ → Reply (List (ℕ × V)))
      → List (Chunk V)
      → List Document.Document
      → ℕ
      → List ℕ
      → Action (Process S) PdfTalkError (List RetrievedChunk)
  counted_search client rows documents user_id valid = do
    check_and_increment_query_usage redis settings.limits user_id
    retrieve_similar_chunks settings.search redis client user_id valid settings.top_k documents rows

  unfoldable pub prepare :
      (ℕ → Reply (List (ℕ × V)))
      → List (Chunk V)
      → ℕ
      → ℕ
      → List ℕ
      → Action (Asking S) PdfTalkError Prepared
  prepare client rows user_id chat_id question s =
      (do
        found ← on_db (validate_chat_for_query env chat_id user_id)
        chunks ← on_process (counted_search client rows s.db.live.documents user_id found.1)
        pure (prepared found chunks question s.db.live))
        s

  unfoldable pub ask :
      (ℕ → Reply (List (ℕ × V)))
      → List (Chunk V)
      → ℕ
      → ℕ
      → List ℕ
      → Action (Asking S) PdfTalkError Prepared
  ask client rows user_id chat_id question = do
    p ← prepare client rows user_id chat_id question
    on_db (save_question env settings p.chat question)
    pure p
