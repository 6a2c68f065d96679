-- ===== src/Ingest/Outcome.antt =====
-- What a run of the ingest job leaves in the database (backend/app/workers/ingest.py), when the
-- database accepts its commits.
use pdftalk.Prelude.{
  ap, ◌∙◌, ◌≢◌, ==_refl, true, some, [], ◌∷◌, ◌++◌, arith, ◌⊎◌, ℕ, ◌≡◌, refl, inl, inr, List,
  length, ◌==◌,
}
use pdftalk.Document.{
  Env, is_document, processing, ready, failed, described, Document, State, Error,
}
use pdftalk.Prelude.Table.{find-update_self, find, update}
use pdftalk.Ingest.Prepare.{with_charges, IsPrepared, prepare-Prepares}
use pdftalk.Ingest.Steps.{
  kept_chunks, start_lem, finished, finish_lem, recorded, fail_lem, length-chunk_rows, started,
}
use pdftalk.Ingest.{run, run_ingest, ingest, chunk_rows, fail, Pipeline, prepare}
use pdftalk.Prelude.Action.{ok, err, Result}
use pdftalk.Chunking.{ChunkData}
use pdftalk.Document

-- The row and the rows of a run that succeeds.
abbrev pub Succeeds :
    Env → Pipeline → Document.Document → State → Result Error (Unit {0}) × State → Type 0
Succeeds env pipe doc s out =
    (chunks : List ChunkData) × (embeddings : List (List ℕ)) × IsPrepared pipe doc chunks embeddings
    × (out.0 ≡ ok tt)
    × (find (is_document doc.id) out.1.saved.documents
        ≡ some (record doc {
          status = ready;
          chunk_count = some (length chunks);
          updated_at = env.now;
        }))
    × (out.1.saved.chunks ≡ kept_chunks doc s.live.chunks ++ chunk_rows doc chunks embeddings)
    × (out.1.saved.job_logs ≡ s.live.job_logs)

-- The row and the rows of a run that fails.
abbrev pub Fails : Env → Document.Document → State → Result Error (Unit {0}) × State → Type 0
Fails env doc s out =
    (e : Error) × (out.0 ≡ err e)
    × (find (is_document doc.id) out.1.saved.documents
        ≡ some (record doc {
          status = failed;
          error_message = some (described e);
          updated_at = env.now;
        }))
    × (out.1.saved.chunks ≡ kept_chunks doc s.live.chunks)
    × (out.1.saved.job_logs
        ≡ s.live.job_logs ++ record { document_id = doc.id; error = described e } ∷ [])

ingest_ok :
    (env : Env) (pipe : Pipeline) (doc : Document.Document) (s : State) (cs : List (ℕ × ℕ))
    (chunks : List ChunkData) (embeddings : List (List ℕ))
    → env.commits ≡ true
    → (prepare pipe doc (started env doc s)).0 ≡ ok (chunks, embeddings)
    → (prepare pipe doc (started env doc s)).1 ≡ with_charges cs (started env doc s)
    → ingest env pipe doc s ≡ (
      ok tt,
      finished env doc (chunk_rows doc chunks embeddings) (with_charges cs (started env doc s)),
    )
unfolding ingest
ingest_ok env pipe doc s cs chunks embeddings commits r st = ground (
  arith,
  start_lem env doc s commits,
  finish_lem env doc (chunk_rows doc chunks embeddings) (with_charges cs (started env doc s))
      commits,
)

ingest_err :
    (env : Env) (pipe : Pipeline) (doc : Document.Document) (s : State) (cs : List (ℕ × ℕ))
    (e : Error)
    → env.commits ≡ true
    → (prepare pipe doc (started env doc s)).0 ≡ err e
    → (prepare pipe doc (started env doc s)).1 ≡ with_charges cs (started env doc s)
    → ingest env pipe doc s ≡ (err e, with_charges cs (started env doc s))
unfolding ingest
ingest_err env pipe doc s cs e commits r st = ground (arith, start_lem env doc s commits)

found_started :
    (env : Env) (doc : Document.Document) (s : State)
    → find (is_document doc.id) s.live.documents ≡ some doc
    → find (is_document doc.id) (started env doc s).live.documents
      ≡ some (record doc { status = processing; updated_at = env.now })
found_started env doc s found =
    find-update_self (is_document doc.id) (is_document doc.id)
      (λ d. record d { status = processing; updated_at = env.now }) s.live.documents doc (λ y. refl)
      found (==_refl doc.id)

run_unready :
    (env : Env) (pipe : Pipeline) (doc : Document.Document) (s : State)
    → find (is_document doc.id) s.live.documents ≡ some doc
    → doc.status ≢ ready
    → run env pipe doc.id s ≡ ingest env pipe doc s
unfolding run
run_unready env pipe doc s found unready = ground arith

run_ingest_ok :
    (env : Env) (pipe : Pipeline) (i : ℕ) (s t : State)
    → run env pipe i s ≡ (ok tt, t)
    → run_ingest env pipe i s ≡ (ok tt, record t { live = t.saved })
unfolding run_ingest
run_ingest_ok env pipe i s t h = ground arith

pub run_ingest_err :
    (env : Env) (pipe : Pipeline) (i : ℕ) (s t t' : State) (e : Error)
    → run env pipe i s ≡ (err e, t)
    → fail env i e t ≡ (ok tt, t')
    → run_ingest env pipe i s ≡ (err e, record t' { live = t'.saved })
unfolding run_ingest
run_ingest_err env pipe i s t t' e h f = ground arith

-- The row after a second write on top of the first.
found_again :
    (env : Env) (doc : Document.Document) (s : State) (f : Document.Document → Document.Document)
    → ((d : Document.Document) → (f d).id ≡ d.id)
    → find (is_document doc.id) s.live.documents ≡ some doc
    → find (is_document doc.id) (update (is_document doc.id) f (started env doc s).live.documents)
      ≡ some (f (record doc { status = processing; updated_at = env.now }))
found_again env doc s f same found =
    find-update_self (is_document doc.id) (is_document doc.id) f (started env doc s).live.documents
      (record doc { status = processing; updated_at = env.now })
      (λ y. ap (λ k. k == doc.id) (same y)) (found_started env doc s found) (==_refl doc.id)

-- A run of the job for a document that exists and is not READY either succeeds or fails when the
-- database accepts its commits, and the saved rows say which. When it succeeds, the extraction, the limits and the embedding service have all
-- answered, the row is READY with the number of chunks, and the chunks of this attempt stand
-- beside those that were kept. When it raises, the row is FAILED with the exception's text, one
-- log row is added, and no chunk of this attempt is saved.
pub run_ingest_outcome :
    (env : Env) (pipe : Pipeline) (doc : Document.Document) (s : State)
    → env.commits ≡ true
    → find (is_document doc.id) s.live.documents ≡ some doc
    → doc.status ≢ ready
    → let out = run_ingest env pipe doc.id s in Succeeds env pipe doc s out ⊎ Fails env doc s out
run_ingest_outcome env pipe doc s commits found unready =
    let S = started env doc s in
    let here = found_started env doc s found in
    let ran = run_unready env pipe doc s found unready in
    let (cs, st, cases) = prepare-Prepares pipe doc S in
    elim cases [
      | inl (e, r) ↦
          let t = with_charges cs S in
          let done =
            run_ingest_err env pipe doc.id s t (recorded env doc.id e t) e
              (ran ∙ ingest_err env pipe doc s cs e commits r st)
              (fail_lem env e t (record doc { status = processing; updated_at = env.now }) here
                commits) in
          inr (
            e,
            ap (λ p. p.0) done,
            ap (λ p. find (is_document doc.id) p.1.saved.documents) done
                ∙ found_again env doc s
                    (λ d. record d {
                      status = failed;
                      error_message = some (described e);
                      updated_at = env.now;
                    })
                    (λ d. refl) found,
            ap (λ p. p.1.saved.chunks) done,
            ap (λ p. p.1.saved.job_logs) done,
          )
      | inr (chunks, embeddings, r, good) ↦
          let rows = chunk_rows doc chunks embeddings in
          let t = finished env doc rows (with_charges cs S) in
          let done =
            run_ingest_ok env pipe doc.id s t
              (ran ∙ ingest_ok env pipe doc s cs chunks embeddings commits r st) in
          inl (
            chunks,
            embeddings,
            good,
            ap (λ p. p.0) done,
            ap (λ p. find (is_document doc.id) p.1.saved.documents) done
                ∙ found_again env doc s
                    (λ d. record d {
                      status = ready;
                      chunk_count = some (length rows);
                      updated_at = env.now;
                    })
                    (λ d. refl) found
                ∙ ap
                    (λ n.
                      some
                        (record doc { status = ready; chunk_count = some n; updated_at = env.now }))
                    (length-chunk_rows doc chunks embeddings good.7),
            ap (λ p. p.1.saved.chunks) done,
            ap (λ p. p.1.saved.job_logs) done,
          )
    ]

-- A document that is READY is left as it is: the job returns and what is saved does not change.
pub run_ingest_ready :
    (env : Env) (pipe : Pipeline) (doc : Document.Document) (s : State)
    → find (is_document doc.id) s.live.documents ≡ some doc
    → doc.status ≡ ready
    → run_ingest env pipe doc.id s ≡ (ok tt, record s { live = s.saved })
unfolding run_ingest run
run_ingest_ready env pipe doc s found done = ground arith
