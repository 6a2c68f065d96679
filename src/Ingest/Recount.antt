-- ===== src/Ingest/Recount.antt =====
-- The number of chunk rows after a retry of the ingest job (backend/app/workers/ingest.py).
use pdftalk.Prelude.{
  ◌+◌, sym, ap, ◌∙◌, true, some, [], ◌∷◌, arith, ◌⊎◌, Bool, ℕ, ◌≡◌, refl, inl, inr, List, length,
}
use pdftalk.Document.{Chunk, Env, is_document, processing, failed, Document, State}
use pdftalk.Prelude.Table.{count-append, count, find, delete}
use pdftalk.Ingest.Prepare.{is_chunk_of}
use pdftalk.Ingest.Steps.{kept_chunks, length-chunk_rows}
use pdftalk.Ingest.{run_ingest, chunk_rows, Pipeline}
use pdftalk.Prelude.Action.{ok}
use pdftalk.Chunking.{ChunkData}
use pdftalk.Ingest.Outcome.{run_ingest_outcome}
use pdftalk.Document

pub count-delete_self : {A : Type 0} (p : A → Bool) (xs : List A) → count p (delete p xs) ≡ 0
count-delete_self p [] = refl
count-delete_self p (x ∷ xs) = ground (arith, count-delete_self p xs)

pub count-chunk_rows :
    (doc : Document.Document) (cs : List ChunkData) (es : List (List ℕ))
    → count (is_chunk_of doc.id) (chunk_rows doc cs es) ≡ length (chunk_rows doc cs es)
count-chunk_rows doc [] es = refl
count-chunk_rows doc (c ∷ cs) [] = refl
count-chunk_rows doc (c ∷ cs) (e ∷ es) = ground (arith, count-chunk_rows doc cs es)

recount :
    (doc : Document.Document) (old : List Chunk) (cs : List ChunkData) (es : List (List ℕ))
    → (doc.status ≡ processing) ⊎ (doc.status ≡ failed)
    → length es ≡ length cs
    → count (is_chunk_of doc.id) (kept_chunks doc old)
        + count (is_chunk_of doc.id) (chunk_rows doc cs es)
      ≡ length cs
recount doc old cs es again same = ground (
  arith,
  count-delete_self (is_chunk_of doc.id) old,
  count-chunk_rows doc cs es,
  length-chunk_rows doc cs es,
)

-- A retry that succeeds, with its commits, of a document left in PROCESSING or FAILED leaves exactly as many chunk
-- rows of the document as its row's `chunk_count` says: none of an earlier attempt remains.
pub run_ingest_recount :
    (env : Env) (pipe : Pipeline) (doc : Document.Document) (s : State)
    → env.commits ≡ true
    → find (is_document doc.id) s.live.documents ≡ some doc
    → (doc.status ≡ processing) ⊎ (doc.status ≡ failed)
    → (run_ingest env pipe doc.id s).0 ≡ ok tt
    → let saved = (run_ingest env pipe doc.id s).1.saved in
      (row : Document.Document) × (find (is_document doc.id) saved.documents ≡ some row)
      × (row.chunk_count ≡ some (count (is_chunk_of doc.id) saved.chunks))
run_ingest_recount env pipe doc s commits found again h =
    elim (run_ingest_outcome env pipe doc s commits found (ground arith)) [
      | inr (e, raised, r1, r2, r3) ↦ absurd (ground arith)
      | inl (chunks, embeddings, good, done, row, rows, logs) ↦ (
        _,
        row,
        ap some (
            sym (
              ap (count (is_chunk_of doc.id)) rows
              ∙ count-append (is_chunk_of doc.id) (kept_chunks doc s.live.chunks)
                  (chunk_rows doc chunks embeddings)
              ∙ recount doc s.live.chunks chunks embeddings again good.7)),
      )
    ]
