-- ===== src/Lifecycle.antt =====
-- What can happen to the documents: the requests of backend/app/routers/documents.py and the jobs of
-- backend/app/workers/ingest.py, tasks.py and failure_handler.py, one after the other in any order.
pub mod Keeps
pub mod Writes
pub mod Requests
pub mod Confirm
pub mod Jobs
pub mod Explained
use pdftalk.Prelude.{ℕ, String, Option, List}
use pdftalk.Document.{Env, State, Error, get_db}
use pdftalk.Document.Endpoints.{
  upload_document_endpoint, delete_document_endpoint, retry_document_endpoint,
  initiate_upload_endpoint, confirm_upload_endpoint,
}
use pdftalk.Ingest.{Pipeline, run_ingest}
use pdftalk.Ingest.Failure.{handle_ingest_failure}
use pdftalk.Cleanup.{cleanup_stale_documents_job}

-- One request or job, with whatever the outside answers in it. A request runs in a session of
-- `get_db`.
pub data Step (s : State) : State → Type 0 where
  uploaded :
      (env : Env) (from_buffer : List ℕ → String) (max_docs user_id : ℕ)
      (filename content_type : String) (reads : List (List ℕ))
      → Step s
          (get_db env
            (upload_document_endpoint env from_buffer max_docs user_id filename content_type reads)
            s).1
  initiated :
      (env : Env) (max_docs user_id : ℕ) (filename mime_type : String) (size : ℕ)
      → Step s
          (get_db env (initiate_upload_endpoint env max_docs user_id filename mime_type size) s).1
  confirmed :
      (env : Env) (document_id user_id : ℕ)
      → Step s (get_db env (confirm_upload_endpoint env document_id user_id) s).1
  retried :
      (env : Env) (document_id user_id : ℕ)
      → Step s (get_db env (retry_document_endpoint env document_id user_id) s).1
  deleted :
      (env : Env) (document_id user_id : ℕ)
      → Step s (get_db env (delete_document_endpoint env document_id user_id) s).1
  ingested :
      (env : Env) (pipe : Pipeline) (document_id : ℕ) → Step s (run_ingest env pipe document_id s).1
  given_up :
      (env : Env) (document_id : Option ℕ) (exc : Error)
      → Step s (handle_ingest_failure env document_id exc s).1
  cleaned_up : (env : Env) → Step s (cleanup_stale_documents_job env s).1

pub data Steps (s : State) : State → Type 0 where
  no_step : Steps s s
  next_step : {t u : State} → Steps s t → Step t u → Steps s u
