-- ===== src/Ingest/Overlap.antt =====
-- Two jobs for one document whose transactions interleave (backend/app/workers/ingest.py): the second
-- one begins before the first one has finished.
use pdftalk.Prelude.{
  ℕ, Option, ◌≢◌, length, ◌+◌, ◌≡◌, refl, ap, ◌∙◌, true, some, List, ◌++◌, arith, ==_refl,
}
use pdftalk.Document.{Service, Error, ready, Document, Env, State, is_document, processing, Chunk}
use pdftalk.Ingest.{begin, go_on, run, Pipeline, chunk_rows}
use pdftalk.Ingest.Recount.{count-chunk_rows, count-delete_self}
use pdftalk.Ingest.Steps.{kept_chunks, length-chunk_rows, started, finished}
use pdftalk.Prelude.Table.{update, find, delete, count, count-append, find-update_self}
use pdftalk.Prelude.Action.{◌>>◌, ◌>>=◌, ok, bind_ok, Result}
use pdftalk.Ingest.Prepare.{is_chunk_of, with_charges}
use pdftalk.Chunking.{ChunkData}
use pdftalk.Ingest.Parts.{begin_lem, PreparesTo, vectors_for, go_on_lem, run_parts}
use pdftalk.Document

-- Both begin, then both go on; each commit closes a transaction, and the next one reads what it left.
unfoldable pub overlapped : Env → Pipeline → Pipeline → ℕ → Service (Unit {0})
overlapped env pipe pipe' document_id = do
  first ← begin env document_id
  second ← begin env document_id
  go_on env pipe first
  go_on env pipe' second

abbrev ran : Env → Document.Document → Document.Document → List Chunk → List Chunk → State → State
ran env first second rows rows' s =
    finished env second rows' (finished env first rows (started env second (started env first s)))

-- What the session of the second job reads: the first one has marked the row.
abbrev pub begun : Env → Document.Document → Document.Document
begun env doc = record doc { status = processing; updated_at = env.now }

both_counted :
    (doc : Document.Document) (old : List Chunk) (rows rows' : List Chunk)
    → count (is_chunk_of doc.id) (((delete (is_chunk_of doc.id) old) ++ rows) ++ rows')
      ≡ count (is_chunk_of doc.id) rows + count (is_chunk_of doc.id) rows'
both_counted doc old rows rows' =
    let p = is_chunk_of doc.id in
    omega (
      arith,
      count-append p (delete p old ++ rows) rows',
      count-append p (delete p old) rows,
      count-delete_self p old,
    )

row_after :
    (env : Env) (doc : Document.Document) (s : State) (rows rows' : List Chunk)
    → find (is_document doc.id) s.live.documents ≡ some doc
    → find (is_document doc.id) (ran env doc (begun env doc) rows rows' s).saved.documents
      ≡ some
          (record doc { status = ready; chunk_count = some (length rows'); updated_at = env.now })
row_after env doc s rows rows' found =
    let mark = λ (d : Document.Document). record d { status = processing; updated_at = env.now } in
    let done = λ (n : ℕ) (d : Document.Document). record d {
      status = ready;
      chunk_count = some n;
      updated_at = env.now;
    } in
    let p = is_document doc.id in
    let here = ==_refl doc.id in
    let docs = s.live.documents in
    let h1 = find-update_self p p mark docs doc (λ y. refl) found here in
    let h2 = find-update_self p p mark (update p mark docs) (mark doc) (λ y. refl) h1 here in
    let h3 =
      find-update_self p p (done (length rows)) (update p mark (update p mark docs))
        (mark (mark doc)) (λ y. refl) h2 here in
    find-update_self p p (done (length rows'))
      (update p (done (length rows)) (update p mark (update p mark docs)))
      (done (length rows) (mark (mark doc))) (λ y. refl) h3 here

-- Two jobs of a document that is not READY, whose transactions interleave: the second one begins
-- after the first one has marked the row and before it goes on. A job is its two parts, one after the
-- other; the second one is not stopped by the mark, since it takes it for a crashed attempt's. Both
-- return, the document is READY with the second one's chunk count, and it has the chunk rows of both
-- jobs. Commits are accepted, and the preparation of each job succeeds.
pub overlapped_jobs_double :
    (env : Env) (pipe pipe' : Pipeline) (doc : Document.Document) (s : State)
    (chunks chunks' : List ChunkData) (embeddings embeddings' : List (List ℕ))
    → env.commits ≡ true
    → find (is_document doc.id) s.live.documents ≡ some doc
    → doc.status ≢ ready
    → PreparesTo pipe doc chunks embeddings
    → PreparesTo pipe' (begun env doc) chunks' embeddings'
    → let out = overlapped env pipe pipe' doc.id s in
      ((p : Pipeline) (t : State) → run env p doc.id t ≡ (begin env doc.id >>= go_on env p) t)
      × ((begin env doc.id (begin env doc.id s).1).0 ≡ ok (some (begun env doc)))
      × (out.0 ≡ ok tt)
      × (find (is_document doc.id) out.1.saved.documents
          ≡ some (record doc {
            status = ready;
            chunk_count = some (length chunks');
            updated_at = env.now;
          }))
      × (count (is_chunk_of doc.id) out.1.saved.chunks ≡ length chunks + length chunks')
unfolding overlapped
overlapped_jobs_double env pipe pipe' doc s chunks chunks' embeddings embeddings' commits found
      unready made made' =
    let second = begun env doc in
    let rows = chunk_rows doc chunks embeddings in
    let rows' = chunk_rows second chunks' embeddings' in
    let s1 = started env doc s in
    let b1 = begin_lem env doc s commits found unready in
    let here : find (is_document doc.id) s1.live.documents ≡ some second =
      find-update_self (is_document doc.id) (is_document doc.id)
        (λ d. record d { status = processing; updated_at = env.now }) s.live.documents doc
        (λ y. refl) found (==_refl doc.id) in
    let b2 = begin_lem env second s1 commits here (λ e. absurd (ground (arith, e))) in
    let s2 = started env second s1 in
    let (cs, g1) = go_on_lem env pipe doc chunks embeddings made s2 commits in
    let s3 = finished env doc rows (with_charges cs s2) in
    let (cs', g2) = go_on_lem env pipe' second chunks' embeddings' made' s3 commits in
    let s4 = finished env second rows' (with_charges cs' s3) in
    let end : overlapped env pipe pipe' doc.id s ≡ (ok tt, s4) =
      bind_ok (begin env doc.id)
        (λ first. begin env doc.id >>= λ o. go_on env pipe first >> go_on env pipe' o) s s1
        (some doc) b1
      ∙ bind_ok (begin env doc.id) (λ o. go_on env pipe (some doc) >> go_on env pipe' o) s1 s2
          (some second) b2
      ∙ bind_ok (go_on env pipe (some doc)) (λ _. go_on env pipe' (some second)) s2 s3 tt g1
      ∙ g2 in
    let same = vectors_for env pipe doc chunks embeddings made s in
    let same' = vectors_for env pipe' second chunks' embeddings' made' s in
    (
      λ p t. run_parts env p doc.id t,
      ap (λ (p : Result Error (Option Document.Document) × State). (begin env doc.id p.1).0) b1
          ∙ ap (λ p. p.0) b2,
      ap (λ p. p.0) end,
      ap (λ p. find (is_document doc.id) p.1.saved.documents) end
          ∙ (row_after env doc s rows rows' found
              ∙ ap
                  (λ n.
                    some
                      (record doc { status = ready; chunk_count = some n; updated_at = env.now }))
                  (length-chunk_rows second chunks' embeddings' same')),
      ap (λ p. count (is_chunk_of doc.id) p.1.saved.chunks) end
          ∙ (both_counted doc (kept_chunks doc s.live.chunks) rows rows'
              ∙ omega (
                arith,
                count-chunk_rows doc chunks embeddings,
                count-chunk_rows second chunks' embeddings',
                length-chunk_rows doc chunks embeddings same,
                length-chunk_rows second chunks' embeddings' same',
              )),
    )
