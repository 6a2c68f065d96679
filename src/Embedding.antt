-- ===== src/Embedding.antt =====
-- backend/app/services/embedding.py and chunk_service.py: vectors for texts in batches, and the
-- rows that keep them. The call for one batch and the L2 normalisation of a vector are arguments;
-- the calls of `asyncio.gather` are made in order, and the first error is the one raised.
use pdftalk.Prelude.{
  ℕ, zero, suc, Bool, true, false, some, List, [], ◌∷◌, ◌++◌, map, ◌==◌, if◌then◌else◌, length,
  take, drop,
}
use pdftalk.Prelude.Action.{Result, Action, ok, err}
use pdftalk.Prelude.Table.{count}
use pdftalk.Exceptions.{PdfTalkError, value_error}
use pdftalk.Retrieval.{Chunk}
pub mod Batches
pub mod Rows

abbrev pub batch_size : ℕ
batch_size = 100

-- `[items[i : i + size] for i in range(0, len(items), size)]`, at most `fuel` batches
unfoldable pub batches : {A : Type 0} → ℕ → ℕ → List A → List (List A)
batches zero size items = []
batches (suc fuel) size [] = []
batches (suc fuel) size (x ∷ xs) = take size (x ∷ xs) ∷ batches fuel size (drop size (x ∷ xs))

unfoldable pub make_batches : {A : Type 0} → ℕ → List A → List (List A)
make_batches size items = batches (length items) size items

module _ {A V : Type 0} (create : List A → Result PdfTalkError (List V)) where
  unfoldable pub gather : List (List A) → Result PdfTalkError (List (List V))
  gather [] = ok []
  gather (b ∷ bs) =
      let rest = gather bs in
      elim (create b) [
        | err e ↦ err e
        | ok vs ↦ elim rest [ err e ↦ err e | ok vss ↦ ok (vs ∷ vss) ]
      ]

-- The loop over the batches and their vectors.
unfoldable pub check_lengths :
    {A V : Type 0} → List (List A) → List (List V) → Result PdfTalkError (List V)
check_lengths [] vss = ok []
check_lengths (b ∷ bs) [] = ok []
check_lengths (b ∷ bs) (vs ∷ vss) =
    let rest = check_lengths bs vss in
    if length vs == length b
    then elim rest [ err e ↦ err e | ok raw_vectors ↦ ok (vs ++ raw_vectors) ]
    else err value_error

unfoldable pub embed_texts_in :
    {A V : Type 0}
    → (List A → Result PdfTalkError (List V))
    → (V → V)
    → ℕ
    → List A
    → Result PdfTalkError (List V)
unfolding check_lengths gather
embed_texts_in create l2_normalize size texts =
    let parts = make_batches size texts in
    elim (gather create parts) [
      | err e ↦ err e
      | ok results ↦ elim (check_lengths parts results) [
        | err e ↦ err e
        | ok raw_vectors ↦ ok (map l2_normalize raw_vectors)
      ]
    ]

abbrev pub is_no_text : {A : Type 0} → List A → Bool
is_no_text [] = true
is_no_text (x ∷ xs) = false

unfoldable pub embed_texts :
    {A V : Type 0}
    → (List A → Result PdfTalkError (List V))
    → (V → V)
    → List A
    → Result PdfTalkError (List V)
unfolding embed_texts_in
embed_texts create l2_normalize texts =
    if is_no_text texts then ok [] else embed_texts_in create l2_normalize batch_size texts

-- One chunk with its vector.
pub record ChunkData (V : Type 0) : Type 0 where
  pub chunk_index : ℕ
  pub text : List ℕ
  pub token_count : ℕ
  pub embedding : V

-- `Chunk(...)`; `uuid4` gives the row its key.
abbrev pub chunk_row : {V : Type 0} → (ℕ → ℕ) → ℕ → ℕ → ChunkData V → Chunk V
chunk_row uuid4 document_id user_id c = record {
  id = uuid4 c.chunk_index;
  document_id = document_id;
  user_id = user_id;
  chunk_index = c.chunk_index;
  text = c.text;
  token_count = c.token_count;
  embedding = some c.embedding;
}

pub data StoreError : Type 0 where
  chunk_count_mismatch : ℕ → ℕ → StoreError

abbrev pub is_chunk_of : {V : Type 0} → ℕ → Chunk V → Bool
is_chunk_of document_id c = c.document_id == document_id

unfoldable pub store_chunks :
    {V : Type 0} → (ℕ → ℕ) → ℕ → ℕ → List (ChunkData V) → Action (List (Chunk V)) StoreError ℕ
store_chunks uuid4 document_id user_id [] rows = (ok 0, rows)
store_chunks uuid4 document_id user_id (c ∷ cs) rows =
    let rows' = rows ++ map (chunk_row uuid4 document_id user_id) (c ∷ cs) in
    let actual_count = count (is_chunk_of document_id) rows' in
    if actual_count == length (c ∷ cs)
    then (ok actual_count, rows')
    else (err (chunk_count_mismatch (length (c ∷ cs)) actual_count), rows')
