-- ===== src/Ingest/Failure.antt =====
-- backend/app/workers/failure_handler.py: what the queue calls when a job's attempts are used up.
use mathlib.Core.Path.{subst}
use pdftalk.Ingest.Outcome.{run_ingest_err, run_ingest_outcome}
use pdftalk.Prelude.{
  sym, ap, ◌∙◌, List, ==_refl, ◌≡◌, refl, ◌≢◌, inl, inr, true, arith, ℕ, Option, none, some, [],
  ◌∷◌, ◌++◌,
}
use pdftalk.Document.{
  Database, value_error, State, JobLog, ready, Error, Document, Env, Service, is_document, write,
  commit, failed, described, db_error,
}
use pdftalk.Ingest.{run, fail, Pipeline, run_ingest, in_session}
use pdftalk.Prelude.Table.{find-update_self, find}
use pdftalk.Ingest.Steps.{kept_chunks, recorded}
use pdftalk.Prelude.Action.{ok, err, pure, raise, modify, ◌>>◌}
use pdftalk.Document

-- `session.add(JobLog(...))`; a log row whose document is missing breaks its foreign key.
abbrev pub log_failure : ℕ → Document.Error → Service (Unit {0})
log_failure i exc = modify λ s. record s {
  live = record s.live {
    job_logs = s.live.job_logs ++ record { document_id = i; error = described exc } ∷ [];
  };
}

-- The writes, with what `session.get(Document, ...)` found.
unfoldable pub mark_failed_job :
    Env → ℕ → Document.Error → Option Document.Document → Service (Unit {0})
mark_failed_job env i exc none = do log_failure i exc; raise db_error
mark_failed_job env i exc (some doc) = do
  write env doc.id (λ d. record d { status = failed; error_message = some (described exc) })
  log_failure i exc
  commit env

-- `document_id` is `job.kwargs.get("document_id")`.
unfoldable pub handle_ingest_failure : Env → Option ℕ → Document.Error → Service (Unit {0})
unfolding mark_failed_job
handle_ingest_failure env none exc = pure tt
handle_ingest_failure env (some i) exc =
    in_session λ s. mark_failed_job env i exc (find (is_document i) s.live.documents) s

handled :
    (env : Env) (e : Document.Error) (s : State) (d : Document.Document)
    → find (is_document d.id) s.live.documents ≡ some d
    → env.commits ≡ true
    → handle_ingest_failure env (some d.id) e s ≡ (ok tt, recorded env d.id e s)
unfolding handle_ingest_failure mark_failed_job
handled env e s d found commits =
    ap (λ o. in_session (mark_failed_job env d.id e o) s) found ∙ rw commits refl

session_closed :
    (env : Env) (pipe : Pipeline) (i : ℕ) (s : State)
    → (run_ingest env pipe i s).1.live ≡ (run_ingest env pipe i s).1.saved
unfolding run_ingest
session_closed env pipe i s = refl

abbrev failure_log : ℕ → Document.Error → JobLog
failure_log i e = record { document_id = i; error = described e }

-- The last attempt of a job raises, and the queue calls the handler with the exception: the row ends
-- FAILED with its text, no chunk of the attempt is saved, and the one failure is logged twice.
pub handle_ingest_failure-logs_twice :
    (env after : Env) (pipe : Pipeline) (doc : Document.Document) (s : State) (e : Document.Error)
    → env.commits ≡ true
    → after.commits ≡ true
    → find (is_document doc.id) s.live.documents ≡ some doc
    → doc.status ≢ ready
    → (run_ingest env pipe doc.id s).0 ≡ err e
    → let out = handle_ingest_failure after (some doc.id) e (run_ingest env pipe doc.id s).1 in
      (out.0 ≡ ok tt)
      × (find (is_document doc.id) out.1.saved.documents
          ≡ some (record doc {
            status = failed;
            error_message = some (described e);
            updated_at = after.now;
          }))
      × (out.1.saved.chunks ≡ kept_chunks doc s.live.chunks)
      × (out.1.saved.job_logs
          ≡ (s.live.job_logs ++ failure_log doc.id e ∷ []) ++ failure_log doc.id e ∷ [])
handle_ingest_failure-logs_twice env after pipe doc s e commits accepts found unready raised =
    elim (run_ingest_outcome env pipe doc s commits found unready) [
      | inl (chunks, embeddings, good, done, row, rows, logs) ↦
          absurd (ground (arith, done, raised))
      | inr (e', other, row, rows, logs) ↦
          let same : e' ≡ e = cc (sym other ∙ raised) in
          let t = (run_ingest env pipe doc.id s).1 in
          let closed = session_closed env pipe doc.id s in
          let d = record doc {
            status = failed;
            error_message = some (described e');
            updated_at = env.now;
          } in
          let here : find (is_document doc.id) t.live.documents ≡ some d =
            ap (λ (db : Database). find (is_document doc.id) db.documents) closed ∙ row in
          let done = handled after e t d here accepts in
          (
            ap (λ p. p.0) done,
            ap (λ p. find (is_document doc.id) p.1.saved.documents) done
                ∙ find-update_self (is_document doc.id) (is_document doc.id)
                    (λ x. record x {
                      status = failed;
                      error_message = some (described e);
                      updated_at = after.now;
                    })
                    t.live.documents d (λ y. refl) here (==_refl doc.id),
            ap (λ p. p.1.saved.chunks) done ∙ (ap (λ (db : Database). db.chunks) closed ∙ rows),
            ap (λ p. p.1.saved.job_logs) done
                ∙ ap (λ (l : List JobLog). l ++ failure_log doc.id e ∷ [])
                    (ap (λ (db : Database). db.job_logs) closed
                      ∙ (logs ∙ ap (λ x. s.live.job_logs ++ failure_log doc.id x ∷ []) same)),
          )
    ]

run_missing :
    (env : Env) (pipe : Pipeline) (i : ℕ) (s : State)
    → find (is_document i) s.live.documents ≡ none
    → run env pipe i s ≡ (err value_error, s)
unfolding run
run_missing env pipe i s missing = rw (missing, run) refl

fail_missing :
    (env : Env) (i : ℕ) (e : Document.Error) (s : State)
    → find (is_document i) s.live.documents ≡ none
    → fail env i e s ≡ (ok tt, s)
unfolding fail
fail_missing env i e s missing = rw (missing, fail) refl

handled_missing :
    (env : Env) (i : ℕ) (e : Document.Error) (s : State)
    → find (is_document i) s.live.documents ≡ none
    → let out = handle_ingest_failure env (some i) e s in
      (out.0 ≡ err db_error) × (out.1.saved ≡ s.saved)
unfolding handle_ingest_failure mark_failed_job
handled_missing env i e s missing =
    let run_it = ap (λ o. in_session (mark_failed_job env i e o) s) missing in
    (ap (λ p. p.0) run_it, ap (λ p. p.1.saved) run_it)

-- When the document was deleted before its job runs, the job raises, and the handler raises too,
-- since its log row names a document that is not there; neither changes what is saved.
pub handle_ingest_failure-deleted :
    (env after : Env) (pipe : Pipeline) (i : ℕ) (s : State) (e : Document.Error)
    → find (is_document i) s.live.documents ≡ none
    → s.live ≡ s.saved
    → let ran = run_ingest env pipe i s in
      let out = handle_ingest_failure after (some i) e ran.1 in
      (ran.0 ≡ err value_error) × (out.0 ≡ err db_error) × (out.1.saved ≡ s.saved)
handle_ingest_failure-deleted env after pipe i s e missing saved =
    let ran =
      run_ingest_err env pipe i s s s value_error (run_missing env pipe i s missing)
        (fail_missing env i value_error s missing) in
    let gone : find (is_document i) s.saved.documents ≡ none =
      subst (λ (db : Database). find (is_document i) db.documents ≡ none) saved missing in
    let (raised, kept) = handled_missing after i e (record s { live = s.saved }) gone in
    (
      ap (λ p. p.0) ran,
      ap (λ p. (handle_ingest_failure after (some i) e p.1).0) ran ∙ raised,
      ap (λ p. (handle_ingest_failure after (some i) e p.1).1.saved) ran ∙ kept,
    )
