-- ===== src/Chats/Service.antt =====
-- backend/app/services/chats.py and validate_chat_for_query of query_validation.py, with the
-- endpoints of backend/app/routers/chats.py.
use pdftalk.Prelude.{
  same_text, ◌+◌, ◌-◌, ◌/◌, String, Bool, true, false, ◌&&◌, List, [], ◌∷◌, ◌++◌, ltb, leb, ◌==◌,
  if◌then◌else◌, take, drop, ℕ,
}
use mathlib.Core.List.{reverse}
use pdftalk.Chats.{
  is_owned_in, validate_documents_for_query, parse_all, is_chat_of, is_in_chat, missing_of, Chat,
  Message, ChatStore, Service, Env, commit, get_db,
}
use pdftalk.Document.{Document, same_status, ready}
use pdftalk.Exceptions.{
  PdfTalkError, chat_not_found, message_not_found, empty_document_list, all_documents_deleted,
}
use pdftalk.Prelude.Table.{find, select, delete, update, count}
use pdftalk.Prelude.Sorting.{sort_by}
use pdftalk.Prelude.Action.{Result, ok, err, pure, or_raise, modify, ◌>>=◌, ◌>>◌}
use pdftalk.Prelude.Text.{codes}
use pdftalk.Document

unfoldable pub lift : {A : Type 0} → Result PdfTalkError A → Service A
lift r s = (r, s)

abbrev pub is_no_text : List String → Bool
is_no_text [] = true
is_no_text (t ∷ ts) = false

-- `default="New Chat"`
abbrev pub new_chat_title : List ℕ
new_chat_title = codes "New Chat"

abbrev pub new_chat : Env → ℕ → List String → Chat
new_chat env user_id document_ids = record {
  id = env.uuid4;
  user_id = user_id;
  title = new_chat_title;
  document_ids = document_ids;
  created_at = env.now;
  updated_at = env.now;
}

abbrev pub on_chats : (List Chat → List Chat) → Service (Unit {0})
on_chats f = modify λ s. record s { live = record s.live { chats = f s.live.chats } }

abbrev pub on_messages : (List Message → List Message) → Service (Unit {0})
on_messages f = modify λ s. record s { live = record s.live { messages = f s.live.messages } }

unfoldable pub create_chat : Env → ℕ → List String → Service Chat
create_chat env user_id document_ids s =
    if is_no_text document_ids
    then (err empty_document_list, s)
    else ((do
      doc_uuids ← lift (parse_all env document_ids)
      lift (validate_documents_for_query doc_uuids user_id s.live)
      on_chats (λ cs. cs ++ new_chat env user_id document_ids ∷ [])
      commit env
      pure (new_chat env user_id document_ids))
        s)

-- `order_by(updated_at.desc())`: rows of one time come in an order of the database's choice.
newest_first : List Chat → List Chat
newest_first cs = reverse (sort_by (λ (c : Chat). c.updated_at) cs)

unfoldable pub list_chats : ℕ → ℕ → ℕ → ChatStore → List Chat × ℕ
unfolding newest_first
list_chats user_id limit offset db =
    let own = λ (c : Chat). c.user_id == user_id in
    (take limit (drop offset (newest_first (select own db.chats))), count own db.chats)

unfoldable pub fetch_chat : ℕ → ℕ → Service Chat
fetch_chat chat_id user_id s =
    or_raise (find (is_chat_of chat_id user_id) s.live.chats) chat_not_found s

-- `chat.messages.sort(key=lambda m: m.created_at)`
unfoldable pub chat_messages : ℕ → ChatStore → List Message
chat_messages chat_id db =
    sort_by (λ (m : Message). m.created_at) (select (is_in_chat chat_id) db.messages)

unfoldable pub missing_documents :
    Env → ℕ → List String → ChatStore → Result PdfTalkError (List String)
missing_documents env user_id document_ids db = elim (parse_all env document_ids) [
  | err e ↦ err e
  | ok ids ↦ ok (missing_of env document_ids (select (is_owned_in ids user_id) db.documents))
]

-- The chat, its messages in order, and the documents that are gone.
unfoldable pub get_chat_with_messages : Env → ℕ → ℕ → Service (Chat × List Message × List String)
get_chat_with_messages env chat_id user_id s =
    (do
      chat ← fetch_chat chat_id user_id
      missing ← lift (missing_documents env user_id chat.document_ids s.live)
      pure (chat, chat_messages chat.id s.live, missing))
      s

-- `updated_at` has `onupdate=func.now()`, which a write of the same title does not set off.
abbrev pub retitle : Env → List ℕ → Chat → Chat
retitle env title c =
    if same_text c.title title then c else record c { title = title; updated_at = env.now }

unfoldable pub rename_chat : Env → ℕ → ℕ → List ℕ → Service Chat
rename_chat env chat_id user_id new_title = do
  chat ← fetch_chat chat_id user_id
  on_chats (update (λ c. c.id == chat.id) (retitle env new_title))
  commit env
  pure (retitle env new_title chat)

-- `db.delete(chat)`, with the cascade to its messages.
unfoldable pub delete_chat : Env → ℕ → ℕ → Service (Unit {0})
delete_chat env chat_id user_id = do
  chat ← fetch_chat chat_id user_id
  on_chats (delete (λ c. c.id == chat.id))
  on_messages (delete (is_in_chat chat.id))
  commit env

abbrev pub is_message_of : ℕ → ℕ → Message → Bool
is_message_of message_id chat_id m = (m.id == message_id) && (m.chat_id == chat_id)

-- `Message.chat_id == chat_id, Message.created_at >= target_created_at`
abbrev pub is_from : ℕ → ℕ → Message → Bool
is_from chat_id t m = (m.chat_id == chat_id) && leb t m.created_at

unfoldable pub find_message : ℕ → ℕ → Service Message
find_message message_id chat_id s =
    or_raise (find (is_message_of message_id chat_id) s.live.messages) message_not_found s

unfoldable pub truncate_chat_from_message : Env → ℕ → ℕ → ℕ → Service (Unit {0})
truncate_chat_from_message env chat_id user_id message_id = do
  chat ← fetch_chat chat_id user_id
  target ← find_message message_id chat_id
  on_messages (delete (is_from chat_id target.created_at))
  on_chats (update (λ c. c.id == chat_id) (λ c. record c { updated_at = env.now }))
  commit env

-- The endpoints run the services in a session.
unfoldable pub create_chat_endpoint : Env → ℕ → List String → Service Chat
create_chat_endpoint env user_id document_ids = get_db env (create_chat env user_id document_ids)

unfoldable pub get_chat_endpoint : Env → ℕ → ℕ → Service (Chat × List Message × List String)
get_chat_endpoint env chat_id user_id = get_db env (get_chat_with_messages env chat_id user_id)

unfoldable pub rename_chat_endpoint : Env → ℕ → ℕ → List ℕ → Service Chat
rename_chat_endpoint env chat_id user_id title = get_db env (rename_chat env chat_id user_id title)

unfoldable pub delete_chat_endpoint : Env → ℕ → ℕ → Service (Unit {0})
delete_chat_endpoint env chat_id user_id = get_db env (delete_chat env chat_id user_id)

unfoldable pub truncate_chat_messages : Env → ℕ → ℕ → ℕ → Service (Unit {0})
truncate_chat_messages env chat_id user_id message_id =
    get_db env (truncate_chat_from_message env chat_id user_id message_id)

pub record ChatList : Type 0 where
  pub items : List Chat
  pub total : ℕ
  pub limit : ℕ
  pub offset : ℕ
  pub page_count : ℕ

-- math.ceil(total / limit) if limit > 0 else 0
unfoldable pub chat_pages : ℕ → ℕ → ℕ
chat_pages total limit = if ltb 0 limit then (total + (limit - 1)) / limit else 0

unfoldable pub list_chats_endpoint : ℕ → ℕ → ℕ → ChatStore → ChatList
unfolding list_chats chat_pages
list_chats_endpoint user_id limit offset db =
    let (items, total) = list_chats user_id limit offset db in
    record {
      items = items;
      total = total;
      limit = limit;
      offset = offset;
      page_count = chat_pages total limit;
    }

-- `[d_id for d_id, d_status in docs if d_status == READY]`
abbrev pub ready_ids : List Document.Document → List ℕ
ready_ids [] = []
ready_ids (d ∷ ds) =
    let rest = ready_ids ds in if same_status d.status ready then d.id ∷ rest else rest

abbrev pub is_no_id : List ℕ → Bool
is_no_id [] = true
is_no_id (i ∷ is) = false

-- The documents that a query searches, and those that are gone.
unfoldable pub check_chat_documents :
    Env → ℕ → List String → ChatStore → Result PdfTalkError (List ℕ × List String)
check_chat_documents env user_id document_ids db =
    if is_no_text document_ids
    then err all_documents_deleted
    else elim (parse_all env document_ids) [
      | err e ↦ err e
      | ok ids ↦
          let docs = select (is_owned_in ids user_id) db.documents in
          if is_no_id (ready_ids docs)
          then err all_documents_deleted
          else ok (ready_ids docs, missing_of env document_ids docs)
    ]

unfoldable pub validate_chat_for_query : Env → ℕ → ℕ → Service (Chat × List ℕ × List String)
validate_chat_for_query env chat_id user_id s =
    (do
      chat ← fetch_chat chat_id user_id
      (valid, missing) ← lift (check_chat_documents env user_id chat.document_ids s.live)
      pure (chat, valid, missing))
      s
