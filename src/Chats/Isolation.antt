-- ===== src/Chats/Isolation.antt =====
-- What a request on a chat of another user meets, and a document list that is refused
-- (backend/app/services/chats.py, backend/app/services/query_validation.py).
use pdftalk.Prelude.{ℕ, ◌≡◌, none, List, arith}
use pdftalk.Chats.{State, is_chat_of, Env}
use pdftalk.Chats.Service.{
  get_chat_with_messages, rename_chat, delete_chat, truncate_chat_from_message, get_chat_endpoint,
  rename_chat_endpoint, delete_chat_endpoint, truncate_chat_messages, validate_chat_for_query,
  fetch_chat,
}
use pdftalk.Prelude.Action.{err}
use pdftalk.Prelude.Table.{find}
use pdftalk.Exceptions.{chat_not_found}

-- A chat that the caller does not own, or that does not exist, cannot be read, renamed, deleted,
-- truncated or asked: each request, in a session with no open changes, raises ChatNotFoundError, and
-- the rows stay as they are.
pub chats_isolate :
    (env : Env) (i u k : ℕ) (title : List ℕ) (s : State)
    → find (is_chat_of i u) s.live.chats ≡ none
    → s.live ≡ s.saved
    → (get_chat_endpoint env i u s ≡ (err chat_not_found, s))
      × (rename_chat_endpoint env i u title s ≡ (err chat_not_found, s))
      × (delete_chat_endpoint env i u s ≡ (err chat_not_found, s))
      × (truncate_chat_messages env i u k s ≡ (err chat_not_found, s))
      × (validate_chat_for_query env i u s ≡ (err chat_not_found, s))
unfolding get_chat_endpoint rename_chat_endpoint delete_chat_endpoint truncate_chat_messages
    validate_chat_for_query get_chat_with_messages rename_chat delete_chat
    truncate_chat_from_message fetch_chat
chats_isolate env i u k title s absent clean = ground arith
