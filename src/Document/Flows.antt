-- ===== src/Document/Flows.antt =====
-- backend/app/services/document_service.py: `upload_document`, `delete_document`,
-- `get_document_download_url`, `initiate_upload` and `confirm_upload`.
use pdftalk.Document.Service.{
  check_quota, add_document, lift, or_default, get_document_for_user, transition_status, call_s3,
  answer, delete_object, new_document,
}
use pdftalk.Prelude.Action.{◌>>=◌, ◌>>◌, pure, raise, modify, raise_if, catch, ok, err}
use pdftalk.Prelude.{
  ℕ, ◌+◌, ◌*◌, String, Bool, not, ◌||◌, none, some, List, [], ◌∷◌, ◌++◌, ltb, ◌==◌, if◌then◌else◌,
  length, str_eq, ◌-◌,
}
use pdftalk.Document.{
  same_status, Error, Document, Service, Env, commit, is_document, pending_upload, pending, failed,
  wrong_state, size_mismatch, client_error, s3_error, described, uploads, heads,
}
use pdftalk.FileValidation.{validate_upload_metadata, validate_upload}
use pdftalk.Prelude.Table.{delete}

-- Whatever exception the cleanup raises is logged and dropped.
abbrev pub ignored : Service (Unit {0}) → Service (Unit {0})
ignored m = catch m (λ e. pure tt)

unfoldable pub upload_document :
    Env → (List ℕ → String) → ℕ → ℕ → String → String → List (List ℕ) → Service Document
upload_document env from_buffer max_docs user_id filename content_type reads = do
  check_quota max_docs user_id
  file_data ← lift (validate_upload from_buffer reads)
  let name = or_default filename "upload"
  let mime = or_default content_type "application/octet-stream"
  let document = new_document env user_id name mime (length file_data) pending
  call_s3 (uploads document.s3_key)
  answer (env.upload_fails document.s3_key)
  add_document document
  catch (commit env) (λ e. do ignored (delete_object env document.s3_key); raise e)
  pure document

-- `error_code in ("NoSuchKey", "404")`
abbrev pub is_missing_code : String → Bool
is_missing_code code = str_eq code "NoSuchKey" || str_eq code "404"

-- A missing object counts as deleted.
abbrev pub tolerate_missing : Error → Service (Unit {0})
tolerate_missing (client_error code) =
    if is_missing_code code then pure tt else raise (client_error code)
tolerate_missing e = raise e

-- `db.delete(doc)`, with the cascades to `chunks` and `job_logs`.
unfoldable pub delete_rows : ℕ → Service (Unit {0})
delete_rows document_id = modify λ s. record s {
  live = record {
    documents = delete (is_document document_id) s.live.documents;
    chunks = delete (λ c. c.document_id == document_id) s.live.chunks;
    job_logs = delete (λ l. l.document_id == document_id) s.live.job_logs;
  };
}

unfoldable pub delete_document : Env → ℕ → ℕ → Service (Unit {0})
delete_document env document_id user_id = do
  doc ← get_document_for_user document_id user_id
  catch (delete_object env doc.s3_key) tolerate_missing
  delete_rows doc.id
  commit env

unfoldable pub get_document_download_url : Env → ℕ → ℕ → Service String
get_document_download_url env document_id user_id = do
  doc ← get_document_for_user document_id user_id
  pure (env.download_url doc.s3_key doc.filename)

abbrev pub presigned_url_expires_in : ℕ
presigned_url_expires_in = 900

unfoldable pub initiate_upload : Env → ℕ → ℕ → String → String → ℕ → Service (Document × String)
initiate_upload env max_docs user_id filename mime_type file_size_bytes = do
  check_quota max_docs user_id
  lift (validate_upload_metadata filename mime_type file_size_bytes)
  let document = new_document env user_id filename mime_type file_size_bytes pending_upload
  add_document document
  commit env
  pure (document, env.upload_url document.s3_key mime_type presigned_url_expires_in)

abbrev pub distance : ℕ → ℕ → ℕ
distance a b = (a - b) + (b - a)

-- `delta > _CONFIRM_SIZE_TOLERANCE`, where delta is |actual - claimed| / claimed and the tolerance
-- 0.10, without the division. A claimed size of 0 accepts only an empty object.
abbrev pub exceeds_tolerance : ℕ → ℕ → Bool
exceeds_tolerance actual claimed =
    if ltb 0 claimed then ltb claimed (10 * distance actual claimed) else not (actual == 0)

unfoldable pub head_object : Env → String → Service ℕ
head_object env key s = elim (env.head_object key) [
  | ok size ↦ (ok size, record s { s3_calls = s.s3_calls ++ heads key ∷ [] })
  | err failure ↦ (err (s3_error failure), record s { s3_calls = s.s3_calls ++ heads key ∷ [] })
]

-- `except ClientError`
abbrev pub ignore_client_error : Error → Service (Unit {0})
ignore_client_error (client_error code) = pure tt
ignore_client_error e = raise e

-- The branch of a rejected size: the object is deleted, as far as the store lets it, and the
-- document fails.
unfoldable pub reject_size : Env → Document → ℕ → Service Document
reject_size env doc actual = do
  catch (delete_object env doc.s3_key) ignore_client_error
  transition_status env doc failed (some (described (size_mismatch actual doc.file_size_bytes)))
      none
  commit env
  raise (size_mismatch actual doc.file_size_bytes)

unfoldable pub accept_size : Env → Document → Service Document
accept_size env doc = do doc' ← transition_status env doc pending none none; commit env; pure doc'

unfoldable pub confirm_upload : Env → ℕ → ℕ → Service Document
confirm_upload env document_id user_id = do
  doc ← get_document_for_user document_id user_id
  raise_if (not (same_status doc.status pending_upload)) (wrong_state doc.status)
  actual ← head_object env doc.s3_key
  if exceeds_tolerance actual doc.file_size_bytes
      then reject_size env doc actual
      else accept_size env doc
