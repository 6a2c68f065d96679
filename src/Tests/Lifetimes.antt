-- ===== src/Tests/Lifetimes.antt =====
-- A document from its upload to its chunks (backend/app/routers/documents.py,
-- backend/app/workers/ingest.py).
use pdftalk.Prelude.{◌≡◌, refl, true, some}
use pdftalk.Document.{State, Document, ready, is_document, get_db}
use pdftalk.Document.Service.{
  new_document, get_document_for_user, transition_status, check_quota, lift, add_document,
  count_user_documents,
}
use pdftalk.Document.Endpoints.{
  initiate_upload_endpoint, confirm_upload_endpoint, enqueue_ingest, enqueue_confirmed,
}
use pdftalk.Document.Flows.{head_object, accept_size, confirm_upload, initiate_upload}
use pdftalk.FileValidation.{validate_upload_metadata, is_allowed_mime}
use pdftalk.Ingest.{run_ingest, run, total_tokens}
use pdftalk.Chunking.{chunk_encoded, chunk_text}
use pdftalk.Lifecycle.{Steps, initiated, confirmed, ingested, no_step, next_step}
use pdftalk.Lifecycle.Explained.{empty_state, has_details, Steps-has_details}
use pdftalk.Tests.Documents.{calm}
use pdftalk.Tests.Jobs.{short_text}
use pdftalk.Prelude.Table.{find}
use pdftalk.Document

abbrev started : State
started =
    (get_db calm (initiate_upload_endpoint calm 20 7 "b.pdf" "application/pdf" 105) empty_state).1

abbrev accepted : State
accepted = (get_db calm (confirm_upload_endpoint calm 2 7) started).1

abbrev finished : State
finished = (run_ingest calm short_text 2 accepted).1

three_Steps : Steps empty_state finished
three_Steps =
    next_step
      (next_step (next_step no_step (initiated calm 20 7 "b.pdf" "application/pdf" 105))
        (confirmed calm 2 7))
      (ingested calm short_text 2)

abbrev ready_row : Document.Document
ready_row = record (new_document calm 7 "b.pdf" "application/pdf" 105 ready) {
  chunk_count = some 1;
}

finished_row : find (is_document 2) finished.saved.documents ≡ some ready_row
unfolding run_ingest run total_tokens chunk_text chunk_encoded lift initiate_upload_endpoint
    confirm_upload_endpoint enqueue_ingest enqueue_confirmed get_document_for_user transition_status
    check_quota add_document count_user_documents head_object accept_size confirm_upload
    initiate_upload validate_upload_metadata is_allowed_mime
finished_row = refl

Steps-has_details_example : has_details ready ready_row ≡ true
Steps-has_details_example = Steps-has_details 2 ready_row three_Steps finished_row
