-- ===== src/Document/Service.antt =====
-- backend/app/services/document_service.py: ownership, the status machine, the quota, and both
-- upload flows. `max_docs` is `settings.MAX_DOCS_PER_USER`. A fetched `Document` is the row as it
-- was read; a write goes to the row of that key.
use pdftalk.Prelude.Action.{◌>>◌, Result, pure, raise, or_raise, modify, ok, err}
use pdftalk.Prelude.{
  ℕ, String, Bool, true, false, not, ◌&&◌, ◌||◌, Option, none, some, List, [], ◌∷◌, ◌++◌, ltb, leb,
  ◌==◌, if◌then◌else◌, take, drop, str_eq,
}
use pdftalk.Document.{
  DocumentStatus, same_status, is_allowed, Error, Message, Document, Database, S3Call, Service, Env,
  write, ready, failed, document_not_found, quota_exceeded, invalid_transition, S3Failure, s3_error,
  deletes,
}
use pdftalk.Prelude.Table.{find, select, count}

-- `Document.id == document_id, Document.user_id == user_id`
abbrev pub owned_by : ℕ → ℕ → Document → Bool
owned_by document_id user_id d = d.id == document_id && d.user_id == user_id

unfoldable pub get_document_for_user : ℕ → ℕ → Service Document
get_document_for_user document_id user_id s =
    or_raise (find (owned_by document_id user_id) s.live.documents) document_not_found s

abbrev pub is_some : Option ℕ → Bool
is_some none = false
is_some (some n) = true

-- What a successful transition does to the row.
abbrev pub set_status : DocumentStatus → Option Message → Option ℕ → Document → Document
set_status to_status error_message chunk_count d =
    let e = if same_status to_status failed then error_message else d.error_message in
    let c =
      if same_status to_status ready && is_some chunk_count then chunk_count else d.chunk_count in
    record d { status = to_status; error_message = e; chunk_count = c }

unfoldable pub transition_status :
    Env → Document → DocumentStatus → Option Message → Option ℕ → Service Document
transition_status env document to_status error_message chunk_count =
    if is_allowed document.status to_status
    then (do
      write env document.id (set_status to_status error_message chunk_count)
      pure (record (set_status to_status error_message chunk_count document) {
        updated_at = env.now;
      }))
    else raise (invalid_transition document.status to_status)

-- `status` and `exclude_statuses`, as tests on a row.
abbrev pub has_status : Option DocumentStatus → Document → Bool
has_status none d = true
has_status (some st) d = same_status d.status st

abbrev pub is_excluded : List DocumentStatus → Document → Bool
is_excluded [] d = false
is_excluded (st ∷ sts) d = same_status d.status st || is_excluded sts d

abbrev pub is_counted : ℕ → Option DocumentStatus → List DocumentStatus → Document → Bool
is_counted user_id status exclude d =
    d.user_id == user_id && has_status status d && not (is_excluded exclude d)

unfoldable pub count_user_documents : ℕ → Option DocumentStatus → List DocumentStatus → Database → ℕ
count_user_documents user_id status exclude db =
    count (is_counted user_id status exclude) db.documents

-- `created_at DESC, id DESC`, by insertion.
newer : Document → Document → Bool
newer d e = ltb e.created_at d.created_at || (d.created_at == e.created_at && ltb e.id d.id)

insert_newest : Document → List Document → List Document
insert_newest d [] = d ∷ []
insert_newest d (e ∷ ds) =
    let rest = insert_newest d ds in if newer d e then d ∷ e ∷ ds else e ∷ rest

newest_first : List Document → List Document
newest_first [] = []
newest_first (d ∷ ds) = insert_newest d (newest_first ds)

unfoldable pub get_user_documents : ℕ → Option DocumentStatus → ℕ → ℕ → Database → List Document
unfolding newer insert_newest newest_first
get_user_documents user_id status limit offset db = take limit (
    drop offset
      (newest_first (select (λ d. d.user_id == user_id && has_status status d) db.documents)))

-- The guard at the head of both upload flows.
abbrev pub active_count : ℕ → Database → ℕ
active_count user_id db = count_user_documents user_id none (failed ∷ []) db

unfoldable pub check_quota : ℕ → ℕ → Service (Unit {0})
check_quota max_docs user_id s =
    (if leb max_docs (active_count user_id s.live) then err quota_exceeded else ok tt, s)

abbrev pub call_s3 : S3Call → Service (Unit {0})
call_s3 c = modify λ s. record s { s3_calls = s.s3_calls ++ c ∷ [] }

-- What the call of the object store raises, if it fails.
abbrev pub answer : Option S3Failure → Service (Unit {0})
answer none = pure tt
answer (some failure) = raise (s3_error failure)

unfoldable pub delete_object : Env → String → Service (Unit {0})
delete_object env key = do call_s3 (deletes key); answer (env.delete_fails key)

unfoldable pub add_document : Document → Service (Unit {0})
add_document d =
    modify λ s. record s { live = record s.live { documents = s.live.documents ++ d ∷ [] } }

-- `Document(...)`; the timestamps are server defaults.
abbrev pub new_document : Env → ℕ → String → String → ℕ → DocumentStatus → Document
new_document env user_id filename mime_type size status = record {
  id = env.uuid4;
  user_id = user_id;
  filename = filename;
  s3_key = env.build_s3_key user_id env.uuid4 filename;
  file_size_bytes = size;
  mime_type = mime_type;
  status = status;
  error_message = none;
  chunk_count = none;
  created_at = env.now;
  updated_at = env.now;
}

unfoldable pub lift : {A : Type 0} → Result Error A → Service A
lift r s = (r, s)

-- `file.filename or "upload"`, and the like for the content type.
unfoldable pub or_default : String → String → String
or_default s d = if str_eq s "" then d else s
