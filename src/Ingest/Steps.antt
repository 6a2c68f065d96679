-- ===== src/Ingest/Steps.antt =====
-- backend/app/workers/ingest.py: what the writes of the ingest job make of the state, when the
-- database accepts its commits.
use pdftalk.Prelude.{
  true, ◌||◌, some, if◌then◌else◌, [], ◌∷◌, ◌++◌, arith, Bool-cases, ℕ, ◌≡◌, refl, inl, inr, List,
  length,
}
use pdftalk.Ingest.{chunk_rows, fail, start, finish}
use pdftalk.Prelude.Table.{find, delete, update}
use pdftalk.Document.{
  same_status, Env, is_document, processing, ready, failed, described, Chunk, Document, State,
  Error,
}
use pdftalk.Prelude.Action.{ok}
use pdftalk.Chunking.{ChunkData}
use pdftalk.Ingest.Prepare.{is_chunk_of}
use pdftalk.Document

-- The chunks that a new attempt keeps: an attempt before it leaves none of this document's.
abbrev pub kept_chunks : Document.Document → List Chunk → List Chunk
kept_chunks doc chunks =
    if same_status doc.status processing || same_status doc.status failed
    then delete (is_chunk_of doc.id) chunks
    else chunks

abbrev pub started : Env → Document.Document → State → State
started env doc s =
    let db = record s.live {
      documents =
          update (is_document doc.id) (λ d. record d { status = processing; updated_at = env.now })
            s.live.documents;
      chunks = kept_chunks doc s.live.chunks;
    } in
    record s { saved = db; live = db }

pub start_lem :
    (env : Env) (doc : Document.Document) (s : State)
    → env.commits ≡ true
    → start env doc s ≡ (ok tt, started env doc s)
unfolding start
start_lem env doc s commits =
    elim (Bool-cases (same_status doc.status processing || same_status doc.status failed)) [
      | inl again ↦ rw again (rw commits refl)
      | inr first ↦ rw first (rw commits refl)
    ]

abbrev pub finished : Env → Document.Document → List Chunk → State → State
finished env doc rows s =
    let db = record s.live {
      documents =
          update (is_document doc.id)
            (λ d. record d {
              status = ready;
              chunk_count = some (length rows);
              updated_at = env.now;
            })
            s.live.documents;
      chunks = s.live.chunks ++ rows;
    } in
    record s { saved = db; live = db }

pub finish_lem :
    (env : Env) (doc : Document.Document) (rows : List Chunk) (s : State)
    → env.commits ≡ true
    → finish env doc rows s ≡ (ok tt, finished env doc rows s)
unfolding finish
finish_lem env doc rows s commits = rw commits refl

abbrev pub recorded : Env → ℕ → Error → State → State
recorded env i e s =
    let db = record s.live {
      documents =
          update (is_document i)
            (λ d. record d {
              status = failed;
              error_message = some (described e);
              updated_at = env.now;
            })
            s.live.documents;
      job_logs = s.live.job_logs ++ record { document_id = i; error = described e } ∷ [];
    } in
    record s { saved = db; live = db }

pub fail_lem :
    (env : Env) (e : Error) (s : State) (d : Document.Document)
    → find (is_document d.id) s.live.documents ≡ some d
    → env.commits ≡ true
    → fail env d.id e s ≡ (ok tt, recorded env d.id e s)
unfolding fail
fail_lem env e s d found commits = rw (found, fail) (rw commits refl)

pub length-chunk_rows :
    (doc : Document.Document) (cs : List ChunkData) (es : List (List ℕ))
    → length es ≡ length cs
    → length (chunk_rows doc cs es) ≡ length cs
length-chunk_rows doc [] es h = refl
length-chunk_rows doc (c ∷ cs) [] h = ground arith
length-chunk_rows doc (c ∷ cs) (e ∷ es) h = ground (arith, length-chunk_rows doc cs es)
