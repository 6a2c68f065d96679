-- ===== src/Lifecycle/Explained.antt =====
-- The invariant of the documents over every run of the program.
use pdftalk.Document.{
  Document, State, Database, DocumentStatus, ready, failed, pending_upload, pending, processing,
  is_document,
}
use pdftalk.Lifecycle.{
  Step, Steps, uploaded, initiated, confirmed, retried, deleted, ingested, given_up, cleaned_up,
  no_step, next_step,
}
use pdftalk.Lifecycle.Keeps.{AllExplained, IsExplained, has_reason, get_db-Keeps}
use pdftalk.Lifecycle.Requests.{
  upload_document_endpoint-Keeps, delete_document_endpoint-Keeps, initiate_upload_endpoint-Keeps,
}
use pdftalk.Lifecycle.Confirm.{confirm_upload_endpoint-Keeps, retry_document_endpoint-Keeps}
use pdftalk.Lifecycle.Jobs.{
  run_ingest-Keeps, handle_ingest_failure-Keeps, cleanup_stale_documents_job-Keeps,
}
use pdftalk.Prelude.{
  ℕ, Bool, true, List, [], ◌∷◌, some, ◌≡◌, refl, arith, All, Bool-cases, inl, inr,
}
use pdftalk.Prelude.Table.{find}
use mathlib.Core.Path.{subst}
use pdftalk.Document.Service.{is_some}
use pdftalk.Document.Endpoints.{
  upload_document_endpoint, delete_document_endpoint, retry_document_endpoint,
  initiate_upload_endpoint, confirm_upload_endpoint,
}
use pdftalk.Document

Step-AllExplained : {s t : State} → Step s t → AllExplained s → AllExplained t
Step-AllExplained {s} (uploaded env from_buffer n u filename mime reads) h =
    get_db-Keeps env (upload_document_endpoint env from_buffer n u filename mime reads)
      (upload_document_endpoint-Keeps env from_buffer n u filename mime reads) s h
Step-AllExplained {s} (initiated env n u filename mime size) h =
    get_db-Keeps env (initiate_upload_endpoint env n u filename mime size)
      (initiate_upload_endpoint-Keeps env n u filename mime size) s h
Step-AllExplained {s} (confirmed env i u) h =
    get_db-Keeps env (confirm_upload_endpoint env i u) (confirm_upload_endpoint-Keeps env i u) s h
Step-AllExplained {s} (retried env i u) h =
    get_db-Keeps env (retry_document_endpoint env i u) (retry_document_endpoint-Keeps env i u) s h
Step-AllExplained {s} (deleted env i u) h =
    get_db-Keeps env (delete_document_endpoint env i u) (delete_document_endpoint-Keeps env i u) s h
Step-AllExplained {s} (ingested env pipe i) h = run_ingest-Keeps env pipe i s h
Step-AllExplained {s} (given_up env i exc) h = handle_ingest_failure-Keeps env i exc s h
Step-AllExplained {s} (cleaned_up env) h = cleanup_stale_documents_job-Keeps env s h

Steps-AllExplained : {s t : State} → Steps s t → AllExplained s → AllExplained t
Steps-AllExplained no_step h = h
Steps-AllExplained (next_step steps step) h = Step-AllExplained step (Steps-AllExplained steps h)

-- Before the first request.
abbrev pub empty_state : State
empty_state =
    let db : Database = record { documents = []; chunks = []; job_logs = [] } in
    record { saved = db; live = db; s3_calls = []; queue = []; charges = [] }

find-IsExplained :
    (p : Document.Document → Bool) (ds : List Document.Document) (d : Document.Document)
    → All IsExplained ds
    → find p ds ≡ some d
    → IsExplained d
find-IsExplained p [] d h found = absurd (ground (arith, found))
find-IsExplained p (x ∷ ds) d h found = elim (Bool-cases (p x)) [
  | inl hit ↦ let same : x ≡ d = cc (rw hit at found) in subst IsExplained same h.0
  | inr miss ↦ find-IsExplained p ds d h.1 (rw miss at found)
]

-- The details that a status calls for.
abbrev pub has_details : DocumentStatus → Document.Document → Bool
has_details ready d = is_some d.chunk_count
has_details failed d = has_reason d.error_message
has_details _ d = true

details :
    (st : DocumentStatus) (d : Document.Document)
    → d.status ≡ st
    → IsExplained d
    → has_details st d ≡ true
details ready d e h = h.0 e
details failed d e h = h.1 e
details pending_upload d e h = refl
details pending d e h = refl
details processing d e h = refl

-- Requests and jobs run from an empty database on, one after the other, in any order and with any
-- answers from outside. Then a saved row that is READY has its chunk count, and one that is FAILED
-- its reason.
pub Steps-has_details :
    {t : State} (i : ℕ) (d : Document.Document)
    → Steps empty_state t
    → find (is_document i) t.saved.documents ≡ some d
    → has_details d.status d ≡ true
Steps-has_details {t} i d steps found = details d.status d refl (
    find-IsExplained (is_document i) t.saved.documents d (Steps-AllExplained steps (tt, tt)).1
      found)
