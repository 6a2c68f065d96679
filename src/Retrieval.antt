-- ===== src/Retrieval.antt =====
-- backend/app/services/retrieval.py, on the chunk rows of backend/app/models/chunk.py. A vector and
-- its cosine distance to another, which pgvector computes, are arguments; a distance is only
-- compared, so it is a number. Rows at one distance come in the order of the table. The HNSW index of
-- the table is approximate: which rows its scan hands over is an argument too.
use pdftalk.Prelude.{
  ℕ, Bool, not, ◌&&◌, Option, none, some, List, [], ◌∷◌, leb, ◌==◌, if◌then◌else◌, take,
}
use pdftalk.Document.{Document, is_document}
use pdftalk.Exceptions.{PdfTalkError, value_error, unexpected}
use pdftalk.Prelude.Action.{Result, pure, raise, raise_if, ◌>>=◌, ◌>>◌, ok, err, Action}
use pdftalk.Prelude.Table.{find, select}
use pdftalk.Chats.{contains}
use pdftalk.Chats.Service.{is_no_id}
use pdftalk.Prompt.{RetrievedChunk}
use pdftalk.Prelude.Sorting.{sort_by}
use pdftalk.Prelude.Text.{codes}
use pdftalk.OpenAi.{Redis, Process, Reply}
use pdftalk.OpenAi.Usage.{create_embeddings}
use pdftalk.Document
pub mod Nearest
pub mod Own

pub record Chunk (V : Type 0) : Type 0 where
  pub id : ℕ
  pub document_id : ℕ
  pub user_id : ℕ
  pub chunk_index : ℕ
  pub text : List ℕ
  pub token_count : ℕ
  pub embedding : Option V

-- What the search needs of pgvector and of the settings.
pub record Search (V : Type 0) : Type 0 where
  pub distance : V → V → ℕ
  pub is_finite : V → Bool
  pub max_distance : ℕ
  pub is_scanned : V → List (Chunk V) → Chunk V → Bool

abbrev pub distance_of : RetrievedChunk → ℕ
distance_of c = c.distance

abbrev pub is_relevant : ℕ → RetrievedChunk → Bool
is_relevant max_distance c = leb c.distance max_distance

module _ {V : Type 0} (search : Search V) where
  abbrev pub retrieved : V → Document.Document → Chunk V → V → RetrievedChunk
  retrieved query d c v = record {
    chunk_id = c.id;
    document_id = c.document_id;
    chunk_index = c.chunk_index;
    text = c.text;
    token_count = c.token_count;
    filename = codes d.filename;
    distance = search.distance v query;
  }

  abbrev pub is_searched : ℕ → List ℕ → Chunk V → Bool
  is_searched user_id document_ids c = (c.user_id == user_id) && contains document_ids c.document_id

  -- The row of a chunk: the join with its document, and `embedding IS NOT NULL`.
  abbrev pub row_of : V → List Document.Document → Chunk V → Option RetrievedChunk
  row_of query documents c = elim (find (is_document c.document_id) documents) [
    | none ↦ none
    | some d ↦ elim c.embedding [ none ↦ none | some v ↦ some (retrieved query d c v) ]
  ]

  -- FROM, JOIN and WHERE
  unfoldable pub matching_rows :
      ℕ → List ℕ → V → List Document.Document → List (Chunk V) → List RetrievedChunk
  matching_rows user_id document_ids query documents [] = []
  matching_rows user_id document_ids query documents (c ∷ cs) =
      let rest = matching_rows user_id document_ids query documents cs in
      if is_searched user_id document_ids c
      then elim (row_of query documents c) [ none ↦ rest | some r ↦ r ∷ rest ]
      else rest

  -- `relevant if relevant else chunks`
  unfoldable pub relevant_or_all : List RetrievedChunk → List RetrievedChunk
  relevant_or_all chunks =
      let relevant = select (is_relevant search.max_distance) chunks in
      elim relevant [ [] ↦ chunks | c ∷ cs ↦ c ∷ cs ]

  -- The rows that the query's scan reaches, by the index or the whole table, as the planner has it.
  abbrev pub scanned_rows : V → List (Chunk V) → List (Chunk V)
  scanned_rows query chunks = select (search.is_scanned query chunks) chunks

  -- The scan of the index is filtered afterwards, so that fewer than `k` rows may be left.
  unfoldable pub run_similarity_search :
      ℕ → List ℕ → V → ℕ → List Document.Document → List (Chunk V) → List RetrievedChunk
  unfolding matching_rows relevant_or_all
  run_similarity_search user_id document_ids query k documents chunks = relevant_or_all (
      take k (
        sort_by distance_of
          (matching_rows user_id document_ids query documents (scanned_rows query chunks))))

  -- `vectors[0]`
  abbrev pub first_vector : List V → Result PdfTalkError V
  first_vector [] = err unexpected
  first_vector (v ∷ vs) = ok v

  module _ {S : Type 0} (redis : Redis S) where
    abbrev pub query_vector : (ℕ → Reply (List (ℕ × V))) → Action (Process S) PdfTalkError V
    query_vector client = do
      vectors ← create_embeddings redis client
      λ p. (first_vector vectors, p)

    unfoldable pub retrieve_similar_chunks :
        (ℕ → Reply (List (ℕ × V)))
        → ℕ
        → List ℕ
        → ℕ
        → List Document.Document
        → List (Chunk V)
        → Action (Process S) PdfTalkError (List RetrievedChunk)
    retrieve_similar_chunks client user_id document_ids k documents chunks =
        if is_no_id document_ids then raise value_error else (do
          query ← query_vector client
          pure (run_similarity_search user_id document_ids query k documents chunks))

    -- The worker's variant, which refuses a vector with NaN or inf.
    unfoldable pub retrieve_similar_chunks_sync :
        (ℕ → Reply (List (ℕ × V)))
        → ℕ
        → List ℕ
        → ℕ
        → List Document.Document
        → List (Chunk V)
        → Action (Process S) PdfTalkError (List RetrievedChunk)
    retrieve_similar_chunks_sync client user_id document_ids k documents chunks =
        if is_no_id document_ids then raise value_error else (do
          query ← query_vector client
          raise_if (not (search.is_finite query)) value_error
          pure (run_similarity_search user_id document_ids query k documents chunks))
