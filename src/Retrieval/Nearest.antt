-- ===== src/Retrieval/Nearest.antt =====
-- What the search returns (backend/app/services/retrieval.py).
use pdftalk.Prelude.{
  Bool, sym, ◌≢◌, List-cases, length-take, ◌∙◌, length, ap, inl, inr, true, leb, Bool-cases, ℕ,
  zero, suc, ◌≤◌, ◌<◌, ◌≡◌, refl, List, [], ◌∷◌, ◌++◌, arith, take, All,
}
use pdftalk.Prelude.Sorting.{
  sort_by-Sorted, take-Sorted, Sorted, insert_by, sort_by, All-sort_by, All-select_below,
  All-delete_below, sort_by-split, is_below,
}
use pdftalk.Retrieval.{
  scanned_rows, Chunk, matching_rows, run_similarity_search, Search, relevant_or_all, distance_of,
  is_relevant,
}
use pdftalk.Prelude.Table.{delete, select}
use pdftalk.Prompt.{RetrievedChunk}
use pdftalk.Document

select_relevant :
    (m : ℕ) (xs : List RetrievedChunk)
    → select (is_relevant m) xs ≡ select (is_below distance_of (suc m)) xs
select_relevant m [] = refl
select_relevant m (x ∷ xs) = ground (arith, select_relevant m xs)

module _ (m : ℕ) where
  none_near :
      (k : ℕ) (ys : List RetrievedChunk)
      → All (λ y. suc m ≤ distance_of y) ys
      → select (is_relevant m) (take k ys) ≡ []
  none_near zero ys far = refl
  none_near (suc k) [] far = refl
  none_near (suc k) (y ∷ ys) far = ground (arith, none_near k ys far.1)

  take_near :
      (k : ℕ) (xs ys : List RetrievedChunk)
      → All (λ x. distance_of x < suc m) xs
      → All (λ y. suc m ≤ distance_of y) ys
      → select (is_relevant m) (take k (xs ++ ys)) ≡ take k xs
  take_near zero xs ys near far = refl
  take_near (suc k) [] ys near far = none_near (suc k) ys far
  take_near (suc k) (x ∷ xs) ys near far =
      let h : is_relevant m x ≡ true = ground arith in
      rw h (ap (◌∷◌ x) (take_near k xs ys near.1 far))

  relevant_of_taken :
      (k : ℕ) (xs : List RetrievedChunk)
      → select (is_relevant m) (take k (sort_by distance_of xs))
        ≡ take k (sort_by distance_of (select (is_relevant m) xs))
  relevant_of_taken k xs =
      let near =
        All-sort_by distance_of (λ x. distance_of x < suc m) _
          (All-select_below distance_of (suc m) xs) in
      let far =
        All-sort_by distance_of (λ x. suc m ≤ distance_of x) _
          (All-delete_below distance_of (suc m) xs) in
      rw (sort_by-split distance_of (suc m) xs, select_relevant m xs)
        (take_near k (sort_by distance_of (select (is_below distance_of (suc m)) xs))
          (sort_by distance_of (delete (is_below distance_of (suc m)) xs)) near far)

select-All : {A : Type 0} (p : A → Bool) (xs : List A) → All (λ x. p x ≡ true) xs → select p xs ≡ xs
select-All p [] h = refl
select-All p (x ∷ xs) h = rw h.0 (ap (◌∷◌ x) (select-All p xs h.1))

insert_by-cons :
    (x : RetrievedChunk) (ys : List RetrievedChunk)
    → (y : RetrievedChunk) × (zs : List RetrievedChunk) × (insert_by distance_of x ys ≡ y ∷ zs)
insert_by-cons x [] = (x, [], refl)
insert_by-cons x (y ∷ ys) = elim (Bool-cases (leb (distance_of x) (distance_of y))) [
  | inl first ↦ (x, y ∷ ys, rw first refl)
  | inr later ↦ (y, insert_by distance_of x ys, rw later refl)
]

module _ {V : Type 0} (search : Search V) where
  pub all_far :
      (xs : List RetrievedChunk)
      → select (is_relevant search.max_distance) xs ≡ []
      → relevant_or_all search xs ≡ xs
  unfolding relevant_or_all
  all_far xs h = ground arith

  pub some_near :
      (xs : List RetrievedChunk) (c : RetrievedChunk) (cs : List RetrievedChunk)
      → select (is_relevant search.max_distance) xs ≡ c ∷ cs
      → relevant_or_all search xs ≡ c ∷ cs
  unfolding relevant_or_all
  some_near xs c cs h = ground arith

  -- The rows that are relevant, cut before or after the choice.
  relevant_or_all-taken :
      (k : ℕ) (xs : List RetrievedChunk)
      → relevant_or_all search (take k (sort_by distance_of xs))
        ≡ take k (sort_by distance_of (relevant_or_all search xs))
  unfolding relevant_or_all
  relevant_or_all-taken zero xs = refl
  relevant_or_all-taken (suc k) xs =
      let cut = relevant_of_taken search.max_distance (suc k) xs in
      let taken = take (suc k) (sort_by distance_of xs) in
      elim (List-cases (select (is_relevant search.max_distance) xs)) [
        | inl none_near ↦ rw (all_far xs none_near) (
            all_far taken (
              cut
              ∙ ap (λ (l : List RetrievedChunk). take (suc k) (sort_by distance_of l)) none_near))
        | inr (c, cs, near) ↦
            let (y, zs, sorted) = insert_by-cons c (sort_by distance_of cs) in
            rw (some_near xs c cs near, sorted)
              (some_near taken y (take k zs) (
                cut
                ∙ ap (λ (l : List RetrievedChunk). take (suc k) (sort_by distance_of l)) near
                ∙ ap (take (suc k)) sorted))
      ]

  -- The threshold, written out: the relevant rows, or all where none is relevant.
  relevant_or_all_lem :
      (xs : List RetrievedChunk)
      → let near = select (λ c. leb c.distance search.max_distance) xs in
        (near ≡ [] → relevant_or_all search xs ≡ xs)
        × (near ≢ [] → relevant_or_all search xs ≡ near)
  relevant_or_all_lem xs =
      let near = select (λ (c : RetrievedChunk). leb c.distance search.max_distance) xs in
      (
        all_far xs,
        λ some_left. elim (List-cases near) [
          | inl empty ↦ absurd (some_left empty)
          | inr (c, cs, found) ↦ some_near xs c cs found ∙ sym found
        ],
      )

  -- The search cuts the sorted rows to `k` first and drops the irrelevant ones afterwards. Of the
  -- rows that the scan reaches and that match, what comes back are all the same the nearest `k` of
  -- those within the maximal distance or, where there is none, the nearest `k` of all; never more
  -- than `k`, and nearest first. A scan that reaches every row makes them the nearest of the table.
  pub run_similarity_search-Sorted :
      (u : ℕ) (ids : List ℕ) (query : V) (k : ℕ) (ds : List Document.Document) (cs : List (Chunk V))
      → let r = run_similarity_search search u ids query k ds cs in
        let nearest = λ (xs : List RetrievedChunk). take k (sort_by distance_of xs) in
        let near = select (λ (c : RetrievedChunk). leb c.distance search.max_distance) in
        let rows = matching_rows search u ids query ds (select (search.is_scanned query cs) cs) in
        (near rows ≡ [] → r ≡ nearest rows)
        × (near rows ≢ [] → r ≡ nearest (near rows))
        × (All (λ c. search.is_scanned query cs c ≡ true) cs
            → rows ≡ matching_rows search u ids query ds cs)
        × Sorted distance_of r
        × (length r ≤ k)
  unfolding run_similarity_search
  run_similarity_search-Sorted u ids query k ds cs =
      let rows = matching_rows search u ids query ds (scanned_rows search query cs) in
      let same = relevant_or_all-taken k rows in
      let (far, near) = relevant_or_all_lem rows in
      let nearest = λ (xs : List RetrievedChunk). take k (sort_by distance_of xs) in
      (
        λ h. same ∙ ap nearest (far h),
        λ h. same ∙ ap nearest (near h),
        λ h.
            ap (matching_rows search u ids query ds) (select-All (search.is_scanned query cs) cs h),
        rw same (
            take-Sorted distance_of k _ (sort_by-Sorted distance_of (relevant_or_all search rows))),
        rw same omega (arith, length-take k (sort_by distance_of (relevant_or_all search rows))),
      )
