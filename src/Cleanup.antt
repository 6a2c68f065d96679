-- ===== src/Cleanup.antt =====
-- backend/app/workers/tasks.py: the periodic job that fails stale documents. The job schedules its
-- next run itself; that call is not modelled.
pub mod Rounds
pub mod Stale
use pdftalk.Prelude.{ℕ, ◌-◌, ◌*◌, Bool, ◌&&◌, ◌||◌, some, List, [], ◌∷◌, ◌++◌, ltb}
use pdftalk.Document.{
  same_status, Message, Document, Service, commit, write, pending_upload, pending, processing,
  failed, literal, Env,
}
use pdftalk.Prelude.Action.{pure, modify, ◌>>◌, catch}
use pdftalk.Prelude.Table.{select}
use pdftalk.Document.Flows.{ignore_client_error}
use pdftalk.Document.Service.{delete_object}
use pdftalk.Ingest.{in_session}
use pdftalk.Document

abbrev pub upload_timeout : ℕ
upload_timeout = 15 * 60

abbrev pub ingest_timeout : ℕ
ingest_timeout = 30 * 60

abbrev pub upload_reason : Message
upload_reason = literal "Upload timed out — presigned URL expired before the file was uploaded."

abbrev pub ingest_reason : Message
ingest_reason = literal "Ingestion timed out (stale document cleanup)."

abbrev pub mark_failed : Message → Document.Document → Document.Document
mark_failed reason d = record d { status = failed; error_message = some reason }

-- The writes of one round: the row, and a log row.
unfoldable pub mark : Env → Message → Document.Document → Service (Unit {0})
mark env reason doc = do
  write env doc.id (mark_failed reason)
  modify λ s. record s {
    live = record s.live {
      job_logs = s.live.job_logs ++ record { document_id = doc.id; error = reason } ∷ [];
    };
  }

-- The loop over the abandoned uploads; the deletion of an object is best effort.
unfoldable pub upload_loop : Env → List Document.Document → Service (Unit {0})
unfolding mark
upload_loop env [] = pure tt
upload_loop env (doc ∷ docs) = do
  catch (delete_object env doc.s3_key) ignore_client_error
  mark env upload_reason doc
  upload_loop env docs

abbrev pub is_stale_upload : ℕ → Document.Document → Bool
is_stale_upload cutoff d = same_status d.status pending_upload && ltb d.updated_at cutoff

unfoldable pub cleanup_stale_pending_uploads : Env → ℕ → Service (List Document.Document)
unfolding upload_loop
cleanup_stale_pending_uploads env cutoff s =
    let stale = select (is_stale_upload cutoff) s.live.documents in
    (upload_loop env stale >> pure stale) s

abbrev pub is_stale_ingest : ℕ → Document.Document → Bool
is_stale_ingest cutoff d =
    (same_status d.status pending || same_status d.status processing) && ltb d.updated_at cutoff

unfoldable pub batch_loop : Env → Message → List Document.Document → Service (Unit {0})
unfolding mark
batch_loop env reason [] = pure tt
batch_loop env reason (doc ∷ docs) = do mark env reason doc; batch_loop env reason docs

-- `_mark_stale_batch`, with the statuses of its one caller.
unfoldable pub mark_stale_batch : Env → ℕ → Message → Service (List Document.Document)
unfolding batch_loop
mark_stale_batch env cutoff reason s =
    let stale = select (is_stale_ingest cutoff) s.live.documents in
    (batch_loop env reason stale >> pure stale) s

unfoldable pub cleanup_stale_documents_job : Env → Service (Unit {0})
unfolding cleanup_stale_pending_uploads mark_stale_batch
cleanup_stale_documents_job env = in_session (do
  cleanup_stale_pending_uploads env (env.now - upload_timeout)
  mark_stale_batch env (env.now - ingest_timeout) ingest_reason
  commit env)
