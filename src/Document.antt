-- ===== src/Document.antt =====
-- The document rows, their statuses and the state that a request or a job changes
-- (backend/app/models/document.py, chunk.py, job_log.py). Identifiers are UUIDs, which are only
-- compared, so they are numbers; times are numbers too. The children hold the services.
pub mod Service
pub mod Flows
pub mod Endpoints
pub mod Keys
pub mod Confirm
pub mod Quota
pub mod Isolation
pub mod Deletion
pub mod Compensation
use pdftalk.Prelude.Action.{◌>>=◌, Result, ok, err, Action, pure, modify, ◌>>◌}
use pdftalk.Prelude.{ℕ, String, Bool, true, false, Option, List, ◌==◌, if◌then◌else◌}
use pdftalk.Prelude.Table.{update}

pub data DocumentStatus : Type 0 where
  pending_upload pending processing ready failed : DocumentStatus

abbrev pub same_status : DocumentStatus → DocumentStatus → Bool
same_status pending_upload pending_upload = true
same_status pending pending = true
same_status processing processing = true
same_status ready ready = true
same_status failed failed = true
same_status _ _ = false

-- `to_status in _ALLOWED_TRANSITIONS[from_status]`
abbrev pub is_allowed : DocumentStatus → DocumentStatus → Bool
is_allowed pending_upload pending = true
is_allowed pending_upload failed = true
is_allowed pending processing = true
is_allowed processing ready = true
is_allowed processing failed = true
is_allowed failed processing = true
is_allowed _ _ = false

-- What the services raise. `http` is an `HTTPException` with its status code, `client_error` a
-- botocore `ClientError` with its code, `botocore_error` any other exception of botocore, as when
-- there is no connection, `unexpected` any other exception of a library.
pub data Error : Type 0 where
  document_not_found quota_exceeded file_too_large unsupported_mime invalid_magic_bytes : Error
  invalid_transition : DocumentStatus → DocumentStatus → Error
  wrong_state : DocumentStatus → Error
  size_mismatch : ℕ → ℕ → Error
  client_error : String → Error
  botocore_error : Error
  http : ℕ → Error
  db_error queue_unavailable value_error daily_quota_exceeded : Error
  circuit_breaker_open retry_exhausted extraction_error chunking_error unexpected : Error

-- The text of `error_message`: one written in the source, or the text of an exception.
pub data Message : Type 0 where
  literal : String → Message
  described : Error → Message

pub record Document : Type 0 where
  pub id : ℕ
  pub user_id : ℕ
  pub filename : String
  pub s3_key : String
  pub file_size_bytes : ℕ
  pub mime_type : String
  pub status : DocumentStatus
  pub error_message : Option Message
  pub chunk_count : Option ℕ
  pub created_at : ℕ
  pub updated_at : ℕ

-- The components of an embedding are opaque numbers.
pub record Chunk : Type 0 where
  pub document_id : ℕ
  pub user_id : ℕ
  pub chunk_index : ℕ
  pub text : List ℕ
  pub token_count : ℕ
  pub embedding : List ℕ

pub record JobLog : Type 0 where
  pub document_id : ℕ
  pub error : Message

pub record Database : Type 0 where
  pub documents : List Document
  pub chunks : List Chunk
  pub job_logs : List JobLog

-- How a call of the object store fails: with the code that it answers, or without an answer.
pub data S3Failure : Type 0 where
  coded : String → S3Failure
  unanswered : S3Failure

-- The calls that reach the object store.
pub data S3Call : Type 0 where
  uploads deletes heads : String → S3Call

-- `saved` is what the database has committed, `live` what the session sees; `queue` holds the
-- documents whose ingest job was enqueued, `charges` the token usage that was charged to users.
pub record State : Type 0 where
  pub saved : Database
  pub live : Database
  pub s3_calls : List S3Call
  pub queue : List ℕ
  pub charges : List (ℕ × ℕ)

abbrev pub Service : Type 0 → Type 0
Service = Action State Error

-- What the outside answers during one request: the clock, a fresh UUID, whether the database
-- accepts a commit and the queue a job, and the object store's answers.
pub record Env : Type 0 where
  pub now : ℕ
  pub uuid4 : ℕ
  pub commits : Bool
  pub enqueues : Bool
  pub upload_fails : String → Option S3Failure
  pub delete_fails : String → Option S3Failure
  pub head_object : String → Result S3Failure ℕ
  pub upload_url : String → String → ℕ → String
  pub download_url : String → String → String
  pub build_s3_key : ℕ → ℕ → String → String

abbrev pub s3_error : S3Failure → Error
s3_error (coded code) = client_error code
s3_error unanswered = botocore_error

abbrev pub commit : Env → Service (Unit {0})
commit env s = if env.commits then (ok tt, record s { saved = s.live }) else (err db_error, s)

-- `get_db`: a request commits when it returns, and rolls back when it or the commit raises.
abbrev pub get_db : {A : Type 0} → Env → Service A → Service A
get_db env m s =
    let (r, s') = (m >>= λ a. commit env >> pure a) s in
    elim r [ ok a ↦ (ok a, s') | err e ↦ (err e, record s' { live = s'.saved }) ]

abbrev pub is_document : ℕ → Document → Bool
is_document i d = d.id == i

-- A write to the fields of the row with this key; `updated_at` has `onupdate=func.now()`.
abbrev pub write : Env → ℕ → (Document → Document) → Service (Unit {0})
write env i f = modify λ s. record s {
  live = record s.live {
    documents =
        update (is_document i) (λ d. record (f d) { updated_at = env.now }) s.live.documents;
  };
}
