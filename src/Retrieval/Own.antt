-- ===== src/Retrieval/Own.antt =====
-- Whose chunks the search returns (backend/app/services/retrieval.py).
use pdftalk.Prelude.{
  Bool, List-cases, ◌⊎◌, ℕ, ◌≡◌, refl, inl, inr, true, some, List, [], ◌∷◌, Bool-cases,
  Option-cases, All, All-take,
}
use pdftalk.Prelude.Sorting.{All-sort_by, All-select}
use pdftalk.Retrieval.{
  scanned_rows, distance_of, is_relevant, relevant_or_all, run_similarity_search, Chunk, Search,
  is_searched, row_of, matching_rows,
}
use pdftalk.Retrieval.Nearest.{some_near, all_far}
use pdftalk.Prelude.Table.{select}
use pdftalk.Prompt.{RetrievedChunk}
use mathlib.Core.Path.{subst}
use pdftalk.Document

abbrev pub Occurs : {A : Type 0} → A → List A → Type 0
Occurs x [] = ⊥
Occurs x (y ∷ ys) = (y ≡ x) ⊎ Occurs x ys

Occurs-select :
    {A : Type 0} (p : A → Bool) (xs : List A) (x : A) → Occurs x (select p xs) → Occurs x xs
Occurs-select p [] x m = m
Occurs-select p (y ∷ ys) x m = elim (Bool-cases (p y)) [
  | inr miss ↦ inr (Occurs-select p ys x (rw miss at m))
  | inl hit ↦ elim (rw hit at m) as (λ _. (y ≡ x) ⊎ Occurs x ys) [
    | inl same ↦ inl same
    | inr later ↦ inr (Occurs-select p ys x later)
  ]
]

module _ {V : Type 0} (search : Search V) (u : ℕ) (ids : List ℕ) (query : V) where
  -- A row that stands for a chunk of the user's, in one of the given documents.
  abbrev pub IsOwnRow : List Document.Document → List (Chunk V) → RetrievedChunk → Type 0
  IsOwnRow ds cs r =
      (c : Chunk V) × Occurs c cs
      × (is_searched search u ids c ≡ true)
      × (row_of search query ds c ≡ some r)

  All-relevant_or_all :
      (P : RetrievedChunk → Type 0) (xs : List RetrievedChunk)
      → All P xs
      → All P (relevant_or_all search xs)
  All-relevant_or_all P xs all = elim (List-cases (select (is_relevant search.max_distance) xs)) [
    | inl none_near ↦ rw (all_far search xs none_near) all
    | inr (c, cs, near) ↦
        let kept = All-select P (is_relevant search.max_distance) xs all in
        rw (some_near search xs c cs near) (subst (All P) near kept)
  ]

  All-matching_rows :
      (ds : List Document.Document) (cs all : List (Chunk V))
      → ((c : Chunk V) → Occurs c cs → Occurs c all)
      → All (IsOwnRow ds all) (matching_rows search u ids query ds cs)
  unfolding matching_rows
  All-matching_rows ds [] all into = tt
  All-matching_rows ds (c ∷ cs) all into =
      let rest = All-matching_rows ds cs all (λ x m. into x (inr m)) in
      elim (Bool-cases (is_searched search u ids c)) [
        | inr other ↦ rw other rest
        | inl own ↦ elim (Option-cases (row_of search query ds c)) [
          | inl null ↦ rw (own, null) rest
          | inr (r, row) ↦ rw (own, row) ((c, into c (inl refl), own, row), rest)
        ]
      ]

  -- Every chunk that comes back is one that the user owns, in one of the documents that were asked
  -- for, with the document's name; a relevance threshold and a limit do not change that.
  pub run_similarity_search-IsOwnRow :
      (k : ℕ) (ds : List Document.Document) (cs : List (Chunk V))
      → All (IsOwnRow ds cs) (run_similarity_search search u ids query k ds cs)
  unfolding run_similarity_search relevant_or_all
  run_similarity_search-IsOwnRow k ds cs =
      let P = IsOwnRow ds cs in
      let reached = scanned_rows search query cs in
      let rows = matching_rows search u ids query ds reached in
      let all = All-take P k _ (
        All-sort_by distance_of P rows
          (All-matching_rows ds reached cs (Occurs-select (search.is_scanned query cs) cs))) in
      All-relevant_or_all P _ all
