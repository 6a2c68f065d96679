-- ===== src/Cleanup/Stale.antt =====
-- What the cleanup job leaves (backend/app/workers/tasks.py).
use pdftalk.Document.{
  Error, uploads, commit, botocore_error, same_status, pending_upload, pending, processing,
  Document, Env, State,
}
use pdftalk.Prelude.{
  false, ◌&&◌, ◌||◌, ltb, ◌-◌, true, ap, ◌∙◌, ◌≡◌, refl, Bool, List, [], ◌∷◌, ◌++◌, map, arith,
  if◌then◌else◌,
}
use pdftalk.Cleanup.Rounds.{
  all_answered, upload_loop_breaks, write_all, when, write_all-select, map-IsKeyed, deletion,
  marked, batch_loop_lem, upload_loop_lem, failed_row,
}
use pdftalk.Cleanup.{
  upload_loop, ingest_reason, cleanup_stale_documents_job, cleanup_stale_pending_uploads,
  mark_stale_batch, upload_reason,
}
use pdftalk.Document.Keys.{IsKeyed}
use pdftalk.Prelude.Action.{ok, err, Result, pure, bind_err, ◌>>◌}
use pdftalk.Prelude.Table.{select}
use pdftalk.Document

-- The rows that the job fails, and what it makes of every row.
abbrev pub stale_upload : Env → Document.Document → Bool
stale_upload env d = same_status d.status pending_upload && ltb d.updated_at (env.now - 900)

abbrev pub stale_ingest : Env → Document.Document → Bool
stale_ingest env d =
    (same_status d.status pending || same_status d.status processing)
    && ltb d.updated_at (env.now - 1800)

abbrev pub swept : Env → Document.Document → Document.Document
swept env d =
    if stale_upload env d
    then failed_row env upload_reason d
    else if stale_ingest env d
    then failed_row env ingest_reason d
    else d

swept_lem :
    (env : Env) (xs : List Document.Document)
    → map
        (when (stale_ingest env) (failed_row env ingest_reason))
        (map (when (stale_upload env) (failed_row env upload_reason)) xs)
      ≡ map (swept env) xs
swept_lem env [] = refl
swept_lem env (x ∷ xs) = ground (arith, swept_lem env xs)

both_batches :
    (env : Env) (xs : List Document.Document)
    → IsKeyed xs
    → let ys = write_all env upload_reason (select (stale_upload env) xs) xs in
      write_all env ingest_reason (select (stale_ingest env) ys) ys ≡ map (swept env) xs
both_batches env xs keyed =
    ap (λ ys. write_all env ingest_reason (select (stale_ingest env) ys) ys)
      (write_all-select env upload_reason (stale_upload env) xs keyed)
    ∙ write_all-select env ingest_reason (stale_ingest env) _
        (map-IsKeyed env upload_reason (stale_upload env) xs keyed)
    ∙ swept_lem env xs

-- What the first batch leaves, and what the job leaves.
abbrev uploads_swept : Env → State → State
uploads_swept env s =
    let stale = select (stale_upload env) s.live.documents in
    record (marked env upload_reason stale s) { s3_calls = s.s3_calls ++ map deletion stale }

abbrev all_swept : Env → State → State
all_swept env s =
    let t = uploads_swept env s in
    marked env ingest_reason (select (stale_ingest env) t.live.documents) t

job_lem :
    (env : Env) (s : State)
    → env.commits ≡ true
    → all_answered env (select (stale_upload env) s.live.documents) ≡ true
    → cleanup_stale_documents_job env s
      ≡ (ok tt, record (all_swept env s) { saved = (all_swept env s).live })
unfolding cleanup_stale_documents_job cleanup_stale_pending_uploads mark_stale_batch
job_lem env s commits answered =
    let t = uploads_swept env s in
    ground (
      arith,
      upload_loop_lem env (select (stale_upload env) s.live.documents) s answered,
      batch_loop_lem env ingest_reason (select (stale_ingest env) t.live.documents) t,
    )

-- A deletion that the store does not answer ends the job.
job_breaks :
    (env : Env) (s : State)
    → all_answered env (select (stale_upload env) s.live.documents) ≡ false
    → let (r, s') = cleanup_stale_documents_job env s in
      (r ≡ err botocore_error) × (s'.saved ≡ s.saved)
unfolding cleanup_stale_documents_job cleanup_stale_pending_uploads mark_stale_batch
job_breaks env s lost =
    let docs = select (stale_upload env) s.live.documents in
    let (raised, same) = upload_loop_breaks env docs s lost in
    let out = upload_loop env docs s in
    let whole : out ≡ (err botocore_error, out.1) =
      ap (λ (r : Result Document.Error (Unit {0})). (r, out.1)) raised in
    let stopped = bind_err (upload_loop env docs) (λ _. pure docs) s out.1 botocore_error whole in
    let job =
      bind_err (cleanup_stale_pending_uploads env (env.now - 900))
        (λ _. mark_stale_batch env (env.now - 1800) ingest_reason >> commit env) s out.1
        botocore_error stopped in
    (ap (λ p. p.0) job, ap (λ p. p.1.saved) job ∙ same)

-- The job, when the commit is accepted and no identifier stands in two rows. Where the object store
-- answers the deletions, be it with errors: every row that has waited for its upload for more than
-- 15 minutes, or for its ingestion for more than 30, is FAILED with the reason of its case, all other
-- rows stay as they are, and the store is asked to delete the objects of the abandoned uploads and
-- no other, each once. Where it leaves one of them without an answer, that error leaves the job, and
-- no row is changed for good: neither of an upload nor of an ingestion.
pub cleanup_stale_documents_job_sweeps :
    (env : Env) (s : State)
    → IsKeyed s.live.documents
    → env.commits ≡ true
    → let (r, s') = cleanup_stale_documents_job env s in
      let uploads = select (stale_upload env) s.live.documents in
      (all_answered env uploads ≡ true
        → (r ≡ ok tt)
          × (s'.saved.documents ≡ map (swept env) s.live.documents)
          × (s'.saved.chunks ≡ s.live.chunks)
          × (s'.s3_calls ≡ s.s3_calls ++ map deletion uploads))
      × (all_answered env uploads ≡ false → (r ≡ err botocore_error) × (s'.saved ≡ s.saved))
cleanup_stale_documents_job_sweeps env s keyed commits =
    let docs = s.live.documents in
    (
      λ answered.
          let done = job_lem env s commits answered in
          (
            ap (λ p. p.0) done,
            ap (λ p. p.1.saved.documents) done ∙ both_batches env docs keyed,
            ap (λ p. p.1.saved.chunks) done,
            ap (λ p. p.1.s3_calls) done,
          ),
      job_breaks env s,
    )
