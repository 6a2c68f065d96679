-- ===== src/Chats.antt =====
-- The chats and their messages (backend/app/models/chat.py, message.py), the checks of
-- backend/app/services/query_validation.py, and the session that the requests run in. The children
-- hold the services of backend/app/services/chats.py and the proofs. A chat names its documents by
-- the texts of their UUIDs as the client sent them; Python's `uuid.UUID` and `str` are arguments.
use pdftalk.Document.{Document, same_status, is_document, ready}
use pdftalk.Prelude.{
  ℕ, String, Bool, true, false, not, ◌&&◌, Option, none, some, List, [], ◌∷◌, ◌==◌, if◌then◌else◌,
  str_eq, map,
}
use pdftalk.Prelude.Table.{find, select}
use pdftalk.Prelude.Action.{Result, ok, err, Action, pure, ◌>>=◌, ◌>>◌}
use pdftalk.Prompt.{Role}
use pdftalk.Exceptions.{PdfTalkError, document_not_found, document_not_ready, value_error, db_error}
pub mod Service
pub mod Isolation
pub mod Missing
pub mod Selection
pub mod Truncation
use pdftalk.Document

pub data MessageStatus : Type 0 where
  complete cut_short : MessageStatus

pub record Message : Type 0 where
  pub id : ℕ
  pub chat_id : ℕ
  pub role : Role
  pub content : List ℕ
  pub token_count : ℕ
  pub status : MessageStatus
  pub created_at : ℕ

pub record Chat : Type 0 where
  pub id : ℕ
  pub user_id : ℕ
  pub title : List ℕ
  pub document_ids : List String
  pub created_at : ℕ
  pub updated_at : ℕ

pub record ChatStore : Type 0 where
  pub documents : List Document.Document
  pub chats : List Chat
  pub messages : List Message

pub record State : Type 0 where
  pub saved : ChatStore
  pub live : ChatStore

abbrev pub Service : Type 0 → Type 0
Service = Action State PdfTalkError

-- What a request draws from outside. `parse` is `uuid.UUID`, which may refuse a text, and `print`
-- is `str` of a UUID.
pub record Env : Type 0 where
  pub now : ℕ
  pub uuid4 : ℕ
  pub commits : Bool
  pub parse : String → Option ℕ
  pub print : ℕ → String

abbrev pub commit : Env → Service (Unit {0})
commit env s = if env.commits then (ok tt, record s { saved = s.live }) else (err db_error, s)

-- `get_db`: a request commits when it returns, and rolls back when it or the commit raises.
abbrev pub get_db : {A : Type 0} → Env → Service A → Service A
get_db env m s =
    let (r, s') = (m >>= λ a. commit env >> pure a) s in
    elim r [ ok a ↦ (ok a, s') | err e ↦ (err e, record s' { live = s'.saved }) ]

abbrev pub contains : List ℕ → ℕ → Bool
contains [] i = false
contains (x ∷ xs) i = if x == i then true else contains xs i

abbrev pub contains_text : List String → String → Bool
contains_text [] t = false
contains_text (x ∷ xs) t = if str_eq x t then true else contains_text xs t

-- `Document.id.in_(ids), Document.user_id == user_id`
abbrev pub is_owned_in : List ℕ → ℕ → Document.Document → Bool
is_owned_in ids user_id d = contains ids d.id && (d.user_id == user_id)

-- The loop over the requested documents.
unfoldable pub check_documents : List ℕ → List Document.Document → Result PdfTalkError (Unit {0})
check_documents [] found = ok tt
check_documents (i ∷ ids) found =
    let rest = check_documents ids found in
    elim (find (is_document i) found) [
      | none ↦ err document_not_found
      | some d ↦ if same_status d.status ready then rest else err (document_not_ready d.status)
    ]

unfoldable pub validate_documents_for_query :
    List ℕ → ℕ → ChatStore → Result PdfTalkError (List Document.Document)
unfolding check_documents
validate_documents_for_query ids user_id db =
    let documents = select (is_owned_in ids user_id) db.documents in
    elim (check_documents ids documents) [ ok a ↦ ok documents | err e ↦ err e ]

-- `[uuid.UUID(d) for d in document_ids]`
unfoldable pub parse_all : Env → List String → Result PdfTalkError (List ℕ)
parse_all env [] = ok []
parse_all env (t ∷ ts) =
    let rest = parse_all env ts in
    elim (env.parse t) [
      | none ↦ err value_error
      | some i ↦ elim rest [ ok is ↦ ok (i ∷ is) | err e ↦ err e ]
    ]

abbrev pub is_chat_of : ℕ → ℕ → Chat → Bool
is_chat_of chat_id user_id c = (c.id == chat_id) && (c.user_id == user_id)

abbrev pub is_in_chat : ℕ → Message → Bool
is_in_chat chat_id m = m.chat_id == chat_id

-- The entries of `document_ids` whose document is not among the found ones, compared as texts.
abbrev pub missing_of : Env → List String → List Document.Document → List String
missing_of env document_ids found =
    select (λ t. not (contains_text (map (λ (d : Document.Document). env.print d.id) found) t))
      document_ids
