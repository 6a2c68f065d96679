-- ===== src/Tests/Chatting.antt =====
-- A chat with two messages beside another chat (backend/app/services/chats.py).
use pdftalk.Chats.Truncation.{time, truncate_keeps_earlier}
use pdftalk.Chats.Service.{
  chat_messages, get_chat_endpoint, rename_chat_endpoint, delete_chat_endpoint,
  truncate_chat_messages, validate_chat_for_query, new_chat_title,
}
use pdftalk.Prelude.{
  ℕ, ◌≤◌, ◌<◌, String, ◌≡◌, refl, ◌≢◌, ◌↔◌, true, Option, none, some, List, [], ◌∷◌, ◌++◌, arith,
  eq_iff, if◌then◌else◌, All, str_eq,
}
use pdftalk.Chats.{
  contains_text, validate_documents_for_query, parse_all, Env, Chat, Message, State, ChatStore,
  complete,
}
use pdftalk.Chats.Selection.{IsReadyOf, validate_documents_for_query_iff}
use pdftalk.Prelude.Action.{ok, err}
use pdftalk.Prompt.{user}
use pdftalk.Tests.Documents.{paper}
use pdftalk.Exceptions.{chat_not_found}
use pdftalk.Document.{ready}
use pdftalk.Chats.Isolation.{chats_isolate}
use pdftalk.Chats.Missing.{unusual_text_is_missing}

-- The document of id 1 is written "d1", and "D1" is read as the same id.
abbrev pub parse_text : String → Option ℕ
parse_text t = if str_eq t "d1" then some 1 else if str_eq t "D1" then some 1 else none

abbrev pub today : Env
today = record { now = 900; uuid4 = 77; commits = true; parse = parse_text; print = λ i. "d1" }

abbrev pub talk : Chat
talk = record {
  id = 5;
  user_id = 7;
  title = new_chat_title;
  document_ids = "d1" ∷ "D1" ∷ [];
  created_at = 1;
  updated_at = 1;
}

abbrev pub said : ℕ → ℕ → ℕ → Message
said i chat t = record {
  id = i;
  chat_id = chat;
  role = user;
  content = 72 ∷ [];
  token_count = 1;
  status = complete;
  created_at = t;
}

abbrev pub rows_of_chats : ChatStore
rows_of_chats = record {
  documents = paper ready ∷ [];
  chats = talk ∷ [];
  messages = said 1 5 10 ∷ said 2 5 20 ∷ said 3 6 30 ∷ [];
}

abbrev pub chatting : State
chatting = record { saved = rows_of_chats; live = rows_of_chats }

chats_isolate_example :
    (get_chat_endpoint today 5 8 chatting ≡ (err chat_not_found, chatting))
    × (rename_chat_endpoint today 5 8 (72 ∷ []) chatting ≡ (err chat_not_found, chatting))
    × (delete_chat_endpoint today 5 8 chatting ≡ (err chat_not_found, chatting))
    × (truncate_chat_messages today 5 8 2 chatting ≡ (err chat_not_found, chatting))
    × (validate_chat_for_query today 5 8 chatting ≡ (err chat_not_found, chatting))
chats_isolate_example = chats_isolate today 5 8 2 (72 ∷ []) chatting refl refl

validate_documents_for_query_iff_example :
    (validate_documents_for_query (1 ∷ []) 7 rows_of_chats ≡ ok (paper ready ∷ []))
    ↔ All (IsReadyOf 7 (paper ready ∷ [])) (1 ∷ [])
validate_documents_for_query_iff_example = validate_documents_for_query_iff (1 ∷ []) 7 rows_of_chats

truncate_keeps_earlier_example :
    ((truncate_chat_messages today 5 7 2 chatting).0 ≡ ok tt)
    × ((truncate_chat_messages today 5 7 2 chatting).1.saved
        ≡ (truncate_chat_messages today 5 7 2 chatting).1.live)
    × All (λ x. time x < 20) (chat_messages 5 (truncate_chat_messages today 5 7 2 chatting).1.live)
    × ((gone : List Message) × (chat_messages 5 rows_of_chats
          ≡ chat_messages 5 (truncate_chat_messages today 5 7 2 chatting).1.live ++ gone)
        × All (λ x. 20 ≤ time x) gone)
    × ((j : ℕ)
        → j ≢ 5
        → chat_messages j (truncate_chat_messages today 5 7 2 chatting).1.live
          ≡ chat_messages j rows_of_chats)
truncate_keeps_earlier_example =
    truncate_keeps_earlier today 5 7 2 chatting talk (said 2 5 20) refl refl refl

both_parse : parse_all today ("d1" ∷ "D1" ∷ []) ≡ ok (1 ∷ 1 ∷ [])
unfolding parse_all
both_parse = refl

never_printed : (j : ℕ) → ◌≢◌ {A = String} "d1" "D1"
never_printed j = ground (arith, eq_iff "d1" "D1")

unusual_text_is_missing_example :
    (missing : List String) × ((get_chat_endpoint today 5 7 chatting).0
      ≡ ok (talk, chat_messages 5 rows_of_chats, missing))
    × (contains_text missing "D1" ≡ true)
unusual_text_is_missing_example =
    unusual_text_is_missing today 5 7 chatting talk (1 ∷ 1 ∷ []) "D1" refl refl both_parse refl
      never_printed
