-- ===== src/Tests/Jobs.antt =====
-- Runs of the ingest job and of the cleanup job (backend/app/workers/ingest.py, tasks.py).

use pdftalk.Prelude.{true, ◌≡◌, refl, ◌⊎◌, false, some, [], ◌∷◌, arith, ◌==◌, length}
use pdftalk.Document.{
  botocore_error, pending_upload, pending, processing, ready, failed, deletes, State, Database,
}
use pdftalk.Ingest.{total_tokens, run, run_ingest, Pipeline}
use pdftalk.Cleanup.{upload_reason, ingest_reason, cleanup_stale_documents_job}
use pdftalk.Chunking.{chunk_encoded, chunk_text, Tokenizer}
use pdftalk.Tests.Documents.{with_library, calm, paper}
use pdftalk.Ingest.Outcome.{Succeeds, Fails, run_ingest_outcome}
use pdftalk.Prelude.Action.{ok, err}
use pdftalk.Document.Service.{lift}
use pdftalk.Cleanup.Stale.{cleanup_stale_documents_job_sweeps}

-- A token for every character.
abbrev pub by_character : Tokenizer
by_character = record {
  encode = λ t. t;
  decode = λ t. t;
  is_blank = λ t. length t == 0;
  encodes = λ t. true;
}

-- The text "hi", within the quota, embedded as one vector.
abbrev pub short_text : Pipeline
short_text = record {
  extract_text = λ k m. ok ((104 ∷ 105 ∷ []) ∷ []);
  tokenizer = by_character;
  over_quota = λ u n. some false;
  embed_texts = λ texts. ok ((1 ∷ []) ∷ []);
}

abbrev queued : State
queued = with_library (paper pending)

run_ingest_outcome_example :
    let out = run_ingest calm short_text 1 queued in
    Succeeds calm short_text (paper pending) queued out ⊎ Fails calm (paper pending) queued out
run_ingest_outcome_example =
    run_ingest_outcome calm short_text (paper pending) queued refl refl (λ p. ground arith)

-- The document has failed, and a chunk of the failed attempt is there.
abbrev left_over : State
left_over =
    let db : Database = record {
      documents = paper failed ∷ [];
      chunks =
          record {
            document_id = 1;
            user_id = 7;
            chunk_index = 0;
            text = [];
            token_count = 3;
            embedding = [];
          }
          ∷ [];
      job_logs = [];
    } in
    record { saved = db; live = db; s3_calls = []; queue = []; charges = [] }

retry_run : (run_ingest calm short_text 1 left_over).0 ≡ ok tt
unfolding run_ingest run total_tokens chunk_text chunk_encoded lift
retry_run = refl

-- An abandoned upload, a stuck ingestion and a ready document.
abbrev neglected : State
neglected =
    let db : Database = record {
      documents =
          paper pending_upload
          ∷ record (paper processing) { id = 2 }
          ∷ record (paper ready) { id = 3 }
          ∷ [];
      chunks = [];
      job_logs = [];
    } in
    record { saved = db; live = db; s3_calls = []; queue = []; charges = [] }

cleanup_stale_documents_job_sweeps_example :
    let (r, s') = cleanup_stale_documents_job calm neglected in
    (true ≡ true
      → (r ≡ ok tt)
        × (s'.saved.documents
            ≡ record (paper failed) { error_message = some upload_reason; updated_at = 9000 }
              ∷ record (paper failed) {
                id = 2;
                error_message = some ingest_reason;
                updated_at = 9000;
              }
              ∷ record (paper ready) { id = 3 }
              ∷ [])
        × (s'.saved.chunks ≡ [])
        × (s'.s3_calls ≡ deletes "users/7/1/a.pdf" ∷ []))
    × (true ≡ false → (r ≡ err botocore_error) × (s'.saved ≡ neglected.saved))
cleanup_stale_documents_job_sweeps_example =
    cleanup_stale_documents_job_sweeps calm neglected (refl, (refl, (refl, tt))) refl
