-- ===== src/Lifecycle/Jobs.antt =====
-- The jobs of backend/app/workers keep every document explained.
use pdftalk.Prelude.{
  ◌-◌, Option, none, [], ◌∷◌, ◌++◌, ℕ, refl, sym, inl, inr, ◌||◌, some, List, arith, if◌then◌else◌,
  Option-cases, length,
}
use pdftalk.Document.{
  Message, Error, described, same_status, Document, Env, Service, Chunk, processing, ready, failed,
  write, commit, is_document,
}
use pdftalk.Ingest.{
  fail, run_ingest, Pipeline, run, ingest, start, prepare, finish, delete_chunks, add_chunks,
  chunk_rows,
}
use pdftalk.Lifecycle.Writes.{delete_object-Keeps}
use pdftalk.Lifecycle.Keeps.{
  IsExplained, catch-Keeps, if_Keeps_at, in_session-Keeps, Keeps, bind_Keeps, if_Keeps, write-Keeps,
  commit-Keeps, AllExplained,
}
use pdftalk.Prelude.Action.{raise, modify, catch, ok, pure, ◌>>=◌, ◌>>◌}
use pdftalk.Prelude.Table.{select, find}
use mathlib.Core.Path.{subst}
use pdftalk.Ingest.Prepare.{prepare-Prepares}
use pdftalk.Chunking.{ChunkData}
use pdftalk.Ingest.Failure.{handle_ingest_failure, mark_failed_job}
use pdftalk.Cleanup.{
  mark, mark_failed, upload_loop, batch_loop, cleanup_stale_pending_uploads, mark_stale_batch,
  cleanup_stale_documents_job, is_stale_upload, is_stale_ingest, upload_reason, ingest_reason,
  upload_timeout, ingest_timeout,
}
use pdftalk.Document.Flows.{ignore_client_error}
use pdftalk.Document.Service.{delete_object}
use pdftalk.Lifecycle.Requests.{ignore_client_error-Keeps}
use pdftalk.Document

start-Keeps : (env : Env) (doc : Document.Document) → Keeps (start env doc)
unfolding start
start-Keeps env doc =
    let again = same_status doc.status processing || same_status doc.status failed in
    let f = λ (d : Document.Document). record d { status = processing } in
    let clear : Service (Unit {0}) = if again then delete_chunks doc.id else pure tt in
    bind_Keeps clear (λ v. write env doc.id f >> commit env)
      (if_Keeps again (delete_chunks doc.id) (pure tt) (λ s h. h) (λ s h. h))
      (λ v.
        bind_Keeps (write env doc.id f) (λ w. commit env)
          (write-Keeps env doc.id f
            (λ d h. (λ e. absurd (ground (arith, e)), λ e. absurd (ground (arith, e)))))
          (λ w. commit-Keeps env))

prepare-Keeps : (pipe : Pipeline) (doc : Document.Document) → Keeps (prepare pipe doc)
prepare-Keeps pipe doc s h =
    let (cs, st, cases) = prepare-Prepares pipe doc s in subst AllExplained (sym st) h

finish-Keeps :
    (env : Env) (doc : Document.Document) (rows : List Chunk) → Keeps (finish env doc rows)
unfolding finish
finish-Keeps env doc rows =
    let f =
      λ (d : Document.Document). record d { status = ready; chunk_count = some (length rows) } in
    bind_Keeps (add_chunks rows) (λ v. write env doc.id f >> commit env) (λ s h. h)
      (λ v.
        bind_Keeps (write env doc.id f) (λ w. commit env)
          (write-Keeps env doc.id f (λ d h. (λ e. refl, λ e. absurd (ground (arith, e)))))
          (λ w. commit-Keeps env))

ingest-Keeps : (env : Env) (pipe : Pipeline) (doc : Document.Document) → Keeps (ingest env pipe doc)
unfolding ingest
ingest-Keeps env pipe doc =
    let end : List ChunkData × List (List ℕ) → Service (Unit {0}) =
      λ r. finish env doc (chunk_rows doc r.0 r.1) in
    bind_Keeps (start env doc) (λ v. prepare pipe doc >>= end) (start-Keeps env doc)
      (λ v.
        bind_Keeps (prepare pipe doc) end (prepare-Keeps pipe doc)
          (λ r. finish-Keeps env doc (chunk_rows doc r.0 r.1)))

run-Keeps : (env : Env) (pipe : Pipeline) (i : ℕ) → Keeps (run env pipe i)
unfolding run
run-Keeps env pipe i s h = elim (Option-cases (find (is_document i) s.live.documents)) [
  | inl absent ↦ rw (absent, run) h
  | inr (doc, found) ↦
      rw (found, run)
        (if_Keeps_at (same_status doc.status ready) (ok tt, s) (ingest env pipe doc s) h
          (ingest-Keeps env pipe doc s h))
]

-- A FAILED row gets its reason.
fails_IsExplained :
    (reason : Message) (d : Document.Document)
    → IsExplained (record d { status = failed; error_message = some reason })
fails_IsExplained reason d = (λ e. absurd (ground (arith, e)), λ e. refl)

-- The two writes of a failure, a row and a log row, with what follows.
failing_Keeps :
    (env : Env) (i j : ℕ) (reason : Message) (last : Service (Unit {0}))
    → Keeps last
    → Keeps (
        write env i (λ d. record d { status = failed; error_message = some reason })
        >> ((modify λ s. record s {
          live = record s.live {
            job_logs = s.live.job_logs ++ record { document_id = j; error = reason } ∷ [];
          };
        })
            >> last))
failing_Keeps env i j reason last hl =
    let f = λ (d : Document.Document). record d { status = failed; error_message = some reason } in
    let log : Service (Unit {0}) = modify λ s. record s {
      live = record s.live {
        job_logs = s.live.job_logs ++ record { document_id = j; error = reason } ∷ [];
      };
    } in
    bind_Keeps (write env i f) (λ v. log >> last)
      (write-Keeps env i f (λ d h. fails_IsExplained reason d))
      (λ v. bind_Keeps log (λ w. last) (λ s h. h) (λ w. hl))

fail-Keeps : (env : Env) (i : ℕ) (exc : Document.Error) → Keeps (fail env i exc)
unfolding fail
fail-Keeps env i exc s h = elim (Option-cases (find (is_document i) s.live.documents)) [
  | inl absent ↦ rw (absent, fail) h
  | inr (doc, found) ↦
      rw (found, fail)
        (let log : Service (Unit {0}) = modify λ s. record s {
          live = record s.live {
            job_logs = s.live.job_logs ++ record { document_id = i; error = described exc } ∷ [];
          };
        } in
          let body : Service (Unit {0}) =
            write env doc.id
              (λ d. record d { status = failed; error_message = some (described exc) })
            >> (log >> commit env) in
          catch-Keeps body (λ e. pure tt)
            (failing_Keeps env doc.id i (described exc) (commit env) (commit-Keeps env))
            (λ e t k. k) s h)
]

pub run_ingest-Keeps : (env : Env) (pipe : Pipeline) (i : ℕ) → Keeps (run_ingest env pipe i)
unfolding run_ingest
run_ingest-Keeps env pipe i =
    let undo : Document.Error → Service (Unit {0}) = λ exc. fail env i exc >> raise exc in
    in_session-Keeps (catch (run env pipe i) undo) (
      catch-Keeps (run env pipe i) undo (run-Keeps env pipe i)
        (λ exc. bind_Keeps (fail env i exc) (λ v. raise exc) (fail-Keeps env i exc) (λ v s h. h)))

mark_failed_job-Keeps :
    (env : Env) (i : ℕ) (exc : Document.Error) (o : Option Document.Document)
    → Keeps (mark_failed_job env i exc o)
unfolding mark_failed_job
mark_failed_job-Keeps env i exc none = λ s h. h
mark_failed_job-Keeps env i exc (some doc) =
    failing_Keeps env doc.id i (described exc) (commit env) (commit-Keeps env)

pub handle_ingest_failure-Keeps :
    (env : Env) (i : Option ℕ) (exc : Document.Error) → Keeps (handle_ingest_failure env i exc)
unfolding handle_ingest_failure
handle_ingest_failure-Keeps env none exc = λ s h. h
handle_ingest_failure-Keeps env (some i) exc =
    in_session-Keeps (λ s. mark_failed_job env i exc (find (is_document i) s.live.documents) s)
      (λ s h. mark_failed_job-Keeps env i exc (find (is_document i) s.live.documents) s h)

mark-Keeps : (env : Env) (reason : Message) (doc : Document.Document) → Keeps (mark env reason doc)
unfolding mark
mark-Keeps env reason doc =
    let log : Service (Unit {0}) = modify λ s. record s {
      live = record s.live {
        job_logs = s.live.job_logs ++ record { document_id = doc.id; error = reason } ∷ [];
      };
    } in
    bind_Keeps (write env doc.id (mark_failed reason)) (λ v. log)
      (write-Keeps env doc.id (mark_failed reason) (λ d h. fails_IsExplained reason d)) (λ v s h. h)

upload_loop-Keeps : (env : Env) (docs : List Document.Document) → Keeps (upload_loop env docs)
unfolding upload_loop
upload_loop-Keeps env [] = λ s h. h
upload_loop-Keeps env (doc ∷ docs) =
    let rest : Service (Unit {0}) = upload_loop env docs in
    bind_Keeps (catch (delete_object env doc.s3_key) ignore_client_error)
      (λ v. mark env upload_reason doc >> rest)
      (catch-Keeps (delete_object env doc.s3_key) ignore_client_error
        (delete_object-Keeps env doc.s3_key) ignore_client_error-Keeps)
      (λ v.
        bind_Keeps (mark env upload_reason doc) (λ w. rest) (mark-Keeps env upload_reason doc)
          (λ w. upload_loop-Keeps env docs))

batch_loop-Keeps :
    (env : Env) (reason : Message) (docs : List Document.Document)
    → Keeps (batch_loop env reason docs)
unfolding batch_loop
batch_loop-Keeps env reason [] = λ s h. h
batch_loop-Keeps env reason (doc ∷ docs) =
    bind_Keeps (mark env reason doc) (λ v. batch_loop env reason docs) (mark-Keeps env reason doc)
      (λ v. batch_loop-Keeps env reason docs)

pub cleanup_stale_documents_job-Keeps : (env : Env) → Keeps (cleanup_stale_documents_job env)
unfolding cleanup_stale_documents_job cleanup_stale_pending_uploads mark_stale_batch
cleanup_stale_documents_job-Keeps env =
    let first = cleanup_stale_pending_uploads env (env.now - upload_timeout) in
    let second = mark_stale_batch env (env.now - ingest_timeout) ingest_reason in
    let last : Service (Unit {0}) = second >> commit env in
    in_session-Keeps (first >> last) (
      bind_Keeps first (λ v. last)
        (λ s h.
          let stale = select (is_stale_upload (env.now - upload_timeout)) s.live.documents in
          bind_Keeps (upload_loop env stale) (λ v. pure stale) (upload_loop-Keeps env stale)
            (λ v t k. k) s h)
        (λ v.
          bind_Keeps second (λ w. commit env)
            (λ s h.
              let stale = select (is_stale_ingest (env.now - ingest_timeout)) s.live.documents in
              bind_Keeps (batch_loop env ingest_reason stale) (λ v. pure stale)
                (batch_loop-Keeps env ingest_reason stale) (λ v t k. k) s h)
            (λ w. commit-Keeps env)))
