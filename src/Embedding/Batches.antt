-- ===== src/Embedding/Batches.antt =====
-- Batching does not show (backend/app/services/embedding.py).
use pdftalk.Prelude.{
  inl, inr, length-append, map-append, sym, true, ◌==◌, All-map, length-map, ℕ, zero, suc, ◌≤◌, ◌<◌,
  ◌≡◌, refl, ap, ◌∙◌, List, [], ◌∷◌, ◌++◌, map, arith, length, take, drop, take-append-drop,
  length-take, length-drop, All,
}
use pdftalk.Prelude.Action.{Result-cases, Result, ok}
use pdftalk.Embedding.{
  batch_size, check_lengths, embed_texts_in, embed_texts, make_batches, gather, batches,
}
use pdftalk.Exceptions.{PdfTalkError}

-- The batches, put together again.
abbrev pub join : {A : Type 0} → List (List A) → List A
join [] = []
join (b ∷ bs) = b ++ join bs

abbrev pub IsBatch : {A : Type 0} → ℕ → List A → Type 0
IsBatch size b = (0 < length b) × (length b ≤ size)

batches-join :
    {A : Type 0} (fuel size : ℕ) (items : List A)
    → 0 < size
    → length items ≤ fuel
    → join (batches fuel size items) ≡ items
unfolding batches
batches-join zero size [] h l = refl
batches-join zero size (x ∷ xs) h l = absurd (omega arith)
batches-join (suc fuel) size [] h l = refl
batches-join (suc fuel) size (x ∷ xs) h l =
    ap (◌++◌ (take size (x ∷ xs)))
      (batches-join fuel size (drop size (x ∷ xs)) h (omega (arith, length-drop size (x ∷ xs))))
    ∙ take-append-drop size (x ∷ xs)

batches-IsBatch :
    {A : Type 0} (fuel size : ℕ) (items : List A)
    → 0 < size
    → All (IsBatch size) (batches fuel size items)
unfolding batches
batches-IsBatch zero size items h = tt
batches-IsBatch (suc fuel) size [] h = tt
batches-IsBatch (suc fuel) size (x ∷ xs) h = (
  (omega (arith, length-take size (x ∷ xs)), omega (arith, length-take size (x ∷ xs))),
  batches-IsBatch fuel size (drop size (x ∷ xs)) h,
)

-- Cutting a list into batches of a positive size loses and reorders nothing, however long the list
-- is, and no batch is empty or too long.
pub make_batches-join :
    {A : Type 0} (size : ℕ) (items : List A)
    → 0 < size
    → (join (make_batches size items) ≡ items) × All (IsBatch size) (make_batches size items)
unfolding make_batches
make_batches-join size items h = (
  batches-join (length items) size items h (omega arith),
  batches-IsBatch (length items) size items h,
)

module _ {A V : Type 0} (create : List A → Result PdfTalkError (List V)) (f : A → V) where
  abbrev pub Answers : List A → Type 0
  Answers b = create b ≡ ok (map f b)

  gather-map : (bs : List (List A)) → All Answers bs → gather create bs ≡ ok (map (map f) bs)
  unfolding gather
  gather-map [] h = refl
  gather-map (b ∷ bs) h = rw (h.0, gather-map bs h.1, gather) refl

  check_lengths-all :
      (bs : List (List A)) → check_lengths bs (map (map f) bs) ≡ ok (map f (join bs))
  unfolding check_lengths
  check_lengths-all [] = refl
  check_lengths-all (b ∷ bs) =
      let same : (length (map f b) == length b) ≡ true = ground (arith, length-map f b) in
      rw (same, check_lengths-all bs) (ap Result.ok (sym (map-append f b (join bs))))

  embed_texts_in-batches :
      (l2_normalize : V → V) (size : ℕ) (texts : List A)
      → All Answers (make_batches size texts)
      → embed_texts_in create l2_normalize size texts
        ≡ ok (map l2_normalize (map f (join (make_batches size texts))))
  unfolding embed_texts_in
  embed_texts_in-batches l2_normalize size texts all =
      let parts = make_batches size texts in
      rw (gather-map parts all, check_lengths-all parts, embed_texts_in) refl

  -- Where the service answers each batch of at most 100 texts with one vector for each text, the
  -- caller gets the normalised vectors of all the texts in their order: the batches do not show.
  pub embed_texts-batches :
      (l2_normalize : V → V) (texts : List A)
      → ((b : List A) → length b ≤ 100 → create b ≡ ok (map f b))
      → embed_texts create l2_normalize texts ≡ ok (map l2_normalize (map f texts))
  unfolding embed_texts
  embed_texts-batches l2_normalize [] answers = refl
  embed_texts-batches l2_normalize (x ∷ xs) answers =
      let (whole, small) = make_batches-join batch_size (x ∷ xs) (omega arith) in
      embed_texts_in-batches l2_normalize batch_size (x ∷ xs)
        (All-map (make_batches batch_size (x ∷ xs)) (λ b h. answers b h.1) small)
      ∙ ap (λ (l : List A). Result.ok (map l2_normalize (map f l))) whole

gather-length :
    {A V : Type 0} (create : List A → Result PdfTalkError (List V)) (bs : List (List A))
    (vss : List (List V))
    → gather create bs ≡ ok vss
    → length vss ≡ length bs
unfolding gather
gather-length create [] vss h = ground arith
gather-length create (b ∷ bs) vss h = elim (Result-cases (create b)) [
  | inl (e, failed) ↦ absurd (ground arith)
  | inr (vs, answered) ↦ elim (Result-cases (gather create bs)) [
    | inl (e, failed) ↦ absurd (ground arith)
    | inr (rest, all) ↦ ground (arith, gather-length create bs rest all)
  ]
]

check_lengths-length :
    {A V : Type 0} (bs : List (List A)) (vss : List (List V)) (vs : List V)
    → length vss ≡ length bs
    → check_lengths bs vss ≡ ok vs
    → length vs ≡ length (join bs)
unfolding check_lengths
check_lengths-length [] vss vs l h = ground arith
check_lengths-length (b ∷ bs) [] vs l h = absurd (omega arith)
check_lengths-length (b ∷ bs) (xs ∷ vss) vs l h = elim (Result-cases (check_lengths bs vss)) [
  | inl (e, failed) ↦ absurd (ground arith)
  | inr (rest, fine) ↦ ground (
    arith,
    check_lengths-length bs vss rest (omega arith) fine,
    length-append xs rest,
    length-append b (join bs),
  )
]

-- When the vectors of some texts come back there are as many as texts, whatever the service sent.
pub length-embed_texts :
    {A V : Type 0} (create : List A → Result PdfTalkError (List V)) (l2_normalize : V → V)
    (texts : List A) (vs : List V)
    → embed_texts create l2_normalize texts ≡ ok vs
    → length vs ≡ length texts
unfolding embed_texts embed_texts_in
length-embed_texts create l2_normalize [] vs h = ground arith
length-embed_texts create l2_normalize (x ∷ xs) vs h =
    let parts = make_batches batch_size (x ∷ xs) in
    let (whole, small) = make_batches-join batch_size (x ∷ xs) (omega arith) in
    elim (Result-cases (gather create parts)) [
      | inl (e, failed) ↦ absurd (ground arith)
      | inr (results, answered) ↦ elim (Result-cases (check_lengths parts results)) [
        | inl (e, failed) ↦ absurd (ground arith)
        | inr (raw, fine) ↦ ground (
          arith,
          length-map l2_normalize raw,
          check_lengths-length parts results raw (gather-length create parts results answered) fine,
          ap length whole,
        )
      ]
    ]
