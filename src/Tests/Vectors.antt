-- ===== src/Tests/Vectors.antt =====
-- Texts, their vectors and a search (backend/app/services/embedding.py, retrieval.py).
use pdftalk.Prelude.Sorting.{Sorted, sort_by}
use pdftalk.Prelude.{
  ℕ, suc, ◌-◌, ◌≤◌, ◌≡◌, true, Option, none, some, List, [], ◌∷◌, map, arith, length, take, All,
  leb, ◌≢◌,
}
use pdftalk.Embedding.{make_batches}
use pdftalk.Retrieval.{distance_of, matching_rows, run_similarity_search, Search, Chunk}
use pdftalk.Embedding.Batches.{join, IsBatch, make_batches-join}
use pdftalk.Retrieval.Own.{IsOwnRow, run_similarity_search-IsOwnRow}
use pdftalk.Prelude.Action.{Result, ok}
use pdftalk.Exceptions.{PdfTalkError}
use pdftalk.Retrieval.Nearest.{run_similarity_search-Sorted}
use pdftalk.Tests.Documents.{paper}
use pdftalk.Document.{ready}
use pdftalk.Prompt.{RetrievedChunk}
use pdftalk.Prelude.Table.{select}

abbrev numbers : List ℕ
numbers = 1 ∷ 2 ∷ 3 ∷ []

make_batches-join_example :
    (join (make_batches 2 numbers) ≡ numbers) × All (IsBatch 2) (make_batches 2 numbers)
make_batches-join_example = make_batches-join 2 numbers (omega arith)

-- A service whose vector for a number is the next one.
abbrev next_ones : List ℕ → Result PdfTalkError (List ℕ)
next_ones b = ok (map suc b)

-- The distance of two numbers is what the first has more.
abbrev pub by_difference : Search ℕ
by_difference = record {
  distance = λ a b. a - b;
  is_finite = λ v. true;
  max_distance = 3;
  is_scanned = λ q cs c. true;
}

abbrev pub piece : ℕ → ℕ → Option ℕ → Chunk ℕ
piece i u v = record {
  id = i;
  document_id = 1;
  user_id = u;
  chunk_index = i;
  text = 120 ∷ [];
  token_count = 1;
  embedding = v;
}

abbrev pub pieces : List (Chunk ℕ)
pieces = piece 0 7 (some 9) ∷ piece 1 7 (some 2) ∷ piece 2 8 (some 1) ∷ piece 3 7 none ∷ []

run_similarity_search-IsOwnRow_example :
    All
      (IsOwnRow by_difference 7 (1 ∷ []) 0 (paper ready ∷ []) pieces)
      (run_similarity_search by_difference 7 (1 ∷ []) 0 5 (paper ready ∷ []) pieces)
run_similarity_search-IsOwnRow_example =
    run_similarity_search-IsOwnRow by_difference 7 (1 ∷ []) 0 5 (paper ready ∷ []) pieces

run_similarity_search-Sorted_example :
    let r = run_similarity_search by_difference 7 (1 ∷ []) 0 1 (paper ready ∷ []) pieces in
    let nearest = λ (xs : List RetrievedChunk). take 1 (sort_by distance_of xs) in
    let near = select (λ (c : RetrievedChunk). leb c.distance 3) in
    let rows =
      matching_rows by_difference 7 (1 ∷ []) 0 (paper ready ∷ []) (select (λ c. true) pieces) in
    (near rows ≡ [] → r ≡ nearest rows)
    × (near rows ≢ [] → r ≡ nearest (near rows))
    × (All (λ c. true ≡ true) pieces
        → rows ≡ matching_rows by_difference 7 (1 ∷ []) 0 (paper ready ∷ []) pieces)
    × Sorted distance_of r
    × (length r ≤ 1)
run_similarity_search-Sorted_example =
    run_similarity_search-Sorted by_difference 7 (1 ∷ []) 0 1 (paper ready ∷ []) pieces
