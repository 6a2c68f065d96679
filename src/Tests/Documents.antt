-- ===== src/Tests/Documents.antt =====
-- One user with one document of 100 bytes, and the requests on it
-- (backend/app/routers/documents.py, backend/app/services/document_service.py).
use pdftalk.Prelude.{leb, ◌≡◌, refl, true, false, none, some, [], ◌∷◌, ◌==◌, ℕ}
use pdftalk.Document.{
  coded, uploads, is_document, pending_upload, pending, failed, invalid_transition, http, deletes,
  Document, State, Env, Database, DocumentStatus,
}
use pdftalk.Document.Endpoints.{
  upload_document_endpoint, get_document_status, get_document_download_url_endpoint,
  delete_document_endpoint, confirm_upload_endpoint, retry_document_endpoint,
}
use pdftalk.FileValidation.{
  validate_upload, check_mime, check_magic_bytes, read_loop, read_and_check_size,
  validate_upload_metadata, is_allowed_mime,
}
use pdftalk.Document.Compensation.{upload_document_endpoint_unqueued}
use pdftalk.Prelude.Action.{ok, err}
use pdftalk.Prelude.Table.{find}
use pdftalk.Document.Service.{
  get_document_for_user, transition_status, count_user_documents, active_count, check_quota,
  add_document, new_document, lift, owned_by,
}
use pdftalk.Document.Flows.{
  delete_document, head_object, accept_size, confirm_upload, initiate_upload,
}
use pdftalk.Document.Confirm.{
  WithinTolerance, confirmed, with_row, confirm_upload_endpoint_unqueued, confirm_upload_sound,
}
use pdftalk.Document.Isolation.{endpoints_isolate}
use pdftalk.Document.Deletion.{delete_document_clears}

abbrev pub paper : DocumentStatus → Document
paper st = record {
  id = 1;
  user_id = 7;
  filename = "a.pdf";
  s3_key = "users/7/1/a.pdf";
  file_size_bytes = 100;
  mime_type = "application/pdf";
  status = st;
  error_message = none;
  chunk_count = none;
  created_at = 100;
  updated_at = 100;
}

abbrev pub library : Document → Database
library d = record { documents = d ∷ []; chunks = []; job_logs = [] }

abbrev pub with_library : Document → State
with_library d = record {
  saved = library d;
  live = library d;
  s3_calls = [];
  queue = [];
  charges = [];
}

-- An object of 105 bytes stands under every key, and every call is answered.
abbrev pub calm : Env
calm = record {
  now = 9000;
  uuid4 = 2;
  commits = true;
  enqueues = true;
  upload_fails = λ k. none;
  delete_fails = λ k. none;
  head_object = λ k. ok 105;
  upload_url = λ k m t. "https://store/put";
  download_url = λ k f. "https://store/get";
  build_s3_key = λ u d f. "users/7/2/b.pdf";
}

abbrev waiting : State
waiting = with_library (paper pending_upload)

confirmed_run : (confirm_upload calm 1 7 waiting).0 ≡ ok (confirmed calm (paper pending_upload))
unfolding confirm_upload get_document_for_user head_object accept_size transition_status
confirmed_run = refl

confirm_upload_sound_example :
    (d : Document) × (actual : ℕ) × (find (owned_by 1 7) waiting.live.documents ≡ some d)
    × (d.status ≡ pending_upload)
    × (calm.head_object d.s3_key ≡ ok actual)
    × WithinTolerance actual d.file_size_bytes
    × (confirmed calm (paper pending_upload) ≡ confirmed calm d)
    × ((confirm_upload calm 1 7 waiting).1.saved ≡ with_row d.id (confirmed calm) waiting.live)
confirm_upload_sound_example =
    confirm_upload_sound calm 1 7 waiting (confirmed calm (paper pending_upload)) confirmed_run

-- The object has half the claimed size.
abbrev halved : Env
halved = record calm { head_object = λ k. ok 50 }

abbrev unqueued : Env
unqueued = record calm { enqueues = false }

unqueued_run :
    (confirm_upload unqueued 1 7 waiting).0 ≡ ok (confirmed unqueued (paper pending_upload))
unfolding confirm_upload get_document_for_user head_object accept_size transition_status
unqueued_run = refl

confirm_upload_endpoint_unqueued_example :
    confirm_upload_endpoint unqueued 1 7 waiting
    ≡ (err (invalid_transition pending failed), (confirm_upload unqueued 1 7 waiting).1)
confirm_upload_endpoint_unqueued_example =
    confirm_upload_endpoint_unqueued unqueued 1 7 waiting
      (confirmed unqueued (paper pending_upload)) unqueued_run refl

endpoints_isolate_example :
    (get_document_status 1 8 waiting ≡ (err (http 404), waiting))
    × (get_document_download_url_endpoint calm 1 8 waiting ≡ (err (http 404), waiting))
    × (delete_document_endpoint calm 1 8 waiting ≡ (err (http 404), waiting))
    × (retry_document_endpoint calm 1 8 waiting ≡ (err (http 404), waiting))
    × (confirm_upload_endpoint calm 1 8 waiting ≡ (err (http 404), waiting))
endpoints_isolate_example = endpoints_isolate calm 1 8 waiting refl

started_run :
    (initiate_upload calm 20 7 "b.pdf" "application/pdf" 300 waiting).0
    ≡ ok (new_document calm 7 "b.pdf" "application/pdf" 300 pending_upload, "https://store/put")
unfolding initiate_upload check_quota lift add_document count_user_documents
    validate_upload_metadata is_allowed_mime
started_run = refl

abbrev broken : State
broken = with_library (paper failed)

delete_document_clears_example :
    let (r, s') = delete_document calm 1 7 waiting in
    (r ≡ ok tt)
    × (find (is_document 1) s'.saved.documents ≡ none)
    × (find (λ c. c.document_id == 1) s'.saved.chunks ≡ none)
    × (find (λ l. l.document_id == 1) s'.saved.job_logs ≡ none)
    × (s'.s3_calls ≡ deletes "users/7/1/a.pdf" ∷ [])
delete_document_clears_example =
    delete_document_clears calm 1 7 waiting (paper pending_upload) refl tt refl

abbrev refusing : Env
refusing = record calm { delete_fails = λ k. some (coded "AccessDenied") }

pdf_accepted :
    validate_upload (λ raw. "application/pdf") ((37 ∷ 80 ∷ 68 ∷ 70 ∷ []) ∷ [])
    ≡ ok (37 ∷ 80 ∷ 68 ∷ 70 ∷ [])
unfolding validate_upload check_mime check_magic_bytes read_and_check_size read_loop is_allowed_mime
pdf_accepted = refl

room_left : leb 20 (active_count 7 waiting.live) ≡ false
unfolding count_user_documents
room_left = refl

upload_document_endpoint_unqueued_example :
    let (r, s') =
      upload_document_endpoint unqueued
        (λ raw. "application/pdf")
        20
        7
        "b.pdf"
        "application/pdf"
        ((37 ∷ 80 ∷ 68 ∷ 70 ∷ []) ∷ [])
        waiting in
    (r ≡ err (http 503))
    × (s'.saved.documents ≡ paper pending_upload ∷ [])
    × (s'.queue ≡ [])
    × (s'.s3_calls ≡ uploads "users/7/2/b.pdf" ∷ deletes "users/7/2/b.pdf" ∷ [])
upload_document_endpoint_unqueued_example =
    upload_document_endpoint_unqueued unqueued (λ raw. "application/pdf") 20 7 "b.pdf"
      "application/pdf" ((37 ∷ 80 ∷ 68 ∷ 70 ∷ []) ∷ []) waiting (37 ∷ 80 ∷ 68 ∷ 70 ∷ []) room_left
      pdf_accepted refl tt refl refl refl
