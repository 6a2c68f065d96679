-- ===== src/Ingest.antt =====
-- backend/app/workers/ingest.py: the ingest job. Extraction, the tokenizer, the daily token quota
-- and the embedding service are its arguments, with what they answer in this run.
pub mod Prepare
pub mod Steps
pub mod Outcome
pub mod Recount
pub mod File
pub mod Parts
pub mod Overlap
pub mod Failure
use pdftalk.Prelude.{
  ℕ, ◌+◌, String, Bool, true, false, not, ◌||◌, Option, none, some, List, [], ◌∷◌, ◌++◌, map, ltb,
  ◌==◌, if◌then◌else◌, length,
}
use pdftalk.Document.{
  same_status, Error, Document, Chunk, Service, commit, is_document, write, processing, ready,
  failed, value_error, unexpected, daily_quota_exceeded, chunking_error, described, Env,
}
use pdftalk.Chunking.{ChunkData, chunk_text, Tokenizer}
use pdftalk.Prelude.Action.{
  or_raise, Result, pure, raise, modify, raise_if, ◌>>=◌, ◌>>◌, catch, ok, err,
}
use pdftalk.Prelude.Table.{find, delete}
use pdftalk.Document.Service.{lift}
use pdftalk.Document

pub record Pipeline : Type 0 where
  pub extract_text : String → String → Result Error (List (List ℕ))
  pub tokenizer : Tokenizer
  pub over_quota : ℕ → ℕ → Option Bool
  pub embed_texts : List (List ℕ) → Result Error (List (List ℕ))

abbrev pub max_tokens_per_document : ℕ
max_tokens_per_document = 500000

unfoldable pub total_tokens : List ChunkData → ℕ
total_tokens [] = 0
total_tokens (c ∷ cs) = c.token_count + total_tokens cs

check_token_budget : ℕ → Result Error (Unit {0})
check_token_budget n = if ltb max_tokens_per_document n then err chunking_error else ok tt

-- `check_and_increment_token_usage`: the usage is charged also when it goes over the quota. When
-- Redis is down (`over_quota` is nothing), its error is raised and nothing is charged.
charge : Pipeline → ℕ → ℕ → Service (Unit {0})
charge pipe user_id n s = elim (pipe.over_quota user_id n) [
  | none ↦ (err unexpected, s)
  | some over ↦ (
    if over then err daily_quota_exceeded else ok tt,
    record s { charges = s.charges ++ (user_id, n) ∷ [] },
  )
]

-- The rows of the chunks with their embeddings.
abbrev pub chunk_rows : Document.Document → List ChunkData → List (List ℕ) → List Chunk
chunk_rows doc [] es = []
chunk_rows doc (c ∷ cs) [] = []
chunk_rows doc (c ∷ cs) (e ∷ es) =
    record {
      document_id = doc.id;
      user_id = doc.user_id;
      chunk_index = c.chunk_index;
      text = c.text;
      token_count = c.token_count;
      embedding = e;
    }
    ∷ chunk_rows doc cs es

-- `db.execute(delete(Chunk).where(...))`
abbrev pub delete_chunks : ℕ → Service (Unit {0})
delete_chunks i = modify λ s. record s {
  live = record s.live { chunks = delete (λ c. c.document_id == i) s.live.chunks };
}

abbrev pub add_chunks : List Chunk → Service (Unit {0})
add_chunks rows = modify λ s. record s { live = record s.live { chunks = s.live.chunks ++ rows } }

no_chunks : List ChunkData → Bool
no_chunks [] = true
no_chunks (c ∷ cs) = false

-- Step 1: clean up what an earlier attempt left, and mark the document PROCESSING.
unfoldable pub start : Env → Document.Document → Service (Unit {0})
start env doc = do
  if same_status doc.status processing || same_status doc.status failed
      then delete_chunks doc.id
      else pure tt
  write env doc.id (λ d. record d { status = processing })
  commit env

-- Steps 2 to 5: the chunks and their embeddings. Nothing is written.
unfoldable pub prepare : Pipeline → Document.Document → Service (List ChunkData × List (List ℕ))
unfolding no_chunks check_token_budget charge
prepare pipe doc = do
  blocks ← lift (pipe.extract_text doc.s3_key doc.mime_type)
  chunks ← or_raise (chunk_text pipe.tokenizer blocks) value_error
  raise_if (no_chunks chunks) chunking_error
  let total = total_tokens chunks
  lift (check_token_budget total)
  charge pipe doc.user_id total
  embeddings ← lift (pipe.embed_texts (map (λ c. c.text) chunks))
  raise_if (not (length embeddings == length chunks)) value_error
  pure (chunks, embeddings)

-- Steps 6 and 7: the rows and READY, in one commit.
unfoldable pub finish : Env → Document.Document → List Chunk → Service (Unit {0})
finish env doc rows = do
  add_chunks rows
  write env doc.id (λ d. record d { status = ready; chunk_count = some (length rows) })
  commit env

unfoldable pub ingest : Env → Pipeline → Document.Document → Service (Unit {0})
unfolding start prepare finish
ingest env pipe doc = do
  start env doc
  (chunks, embeddings) ← prepare pipe doc
  finish env doc (chunk_rows doc chunks embeddings)

unfoldable pub run : Env → Pipeline → ℕ → Service (Unit {0})
unfolding ingest
run env pipe document_id s = elim (find (is_document document_id) s.live.documents) [
  | none ↦ (err value_error, s)
  | some doc ↦ if same_status doc.status ready then (ok tt, s) else ingest env pipe doc s
]

-- `_run` in two parts, for jobs that interleave: up to its first commit, where it hands over the row
-- unless the document is READY, and from there on.
unfoldable pub begin : Env → ℕ → Service (Option Document.Document)
unfolding start
begin env document_id s = elim (find (is_document document_id) s.live.documents) [
  | none ↦ (err value_error, s)
  | some doc ↦
      if same_status doc.status ready then (ok none, s) else (start env doc >> pure (some doc)) s
]

unfoldable pub go_on : Env → Pipeline → Option Document.Document → Service (Unit {0})
unfolding prepare finish
go_on env pipe none = pure tt
go_on env pipe (some doc) = do
  (chunks, embeddings) ← prepare pipe doc
  finish env doc (chunk_rows doc chunks embeddings)

-- `_fail`: best effort. The log row of a document that does not exist breaks its foreign key, and
-- whatever is raised here is logged and dropped.
unfoldable pub fail : Env → ℕ → Error → Service (Unit {0})
fail env document_id exc s = elim (find (is_document document_id) s.live.documents) [
  | none ↦ (ok tt, s)
  | some doc ↦
      catch
        (do
          write env doc.id (λ d. record d { status = failed; error_message = some (described exc) })
          modify λ s. record s {
            live = record s.live {
              job_logs =
                  s.live.job_logs
                  ++ record { document_id = document_id; error = described exc } ∷ [];
            };
          }
          commit env)
        (λ e. pure tt) s
]

-- `with SessionLocal() as db`: what was not committed is gone when the session closes.
abbrev pub in_session : {A : Type 0} → Service A → Service A
in_session m s = let (r, s') = m s in (r, record s' { live = s'.saved })

unfoldable pub run_ingest : Env → Pipeline → ℕ → Service (Unit {0})
run_ingest env pipe document_id =
    in_session (catch (run env pipe document_id) (λ exc. do fail env document_id exc; raise exc))
