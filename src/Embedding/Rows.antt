-- ===== src/Embedding/Rows.antt =====
-- The rows of a document's chunks (backend/app/services/chunk_service.py).
use pdftalk.Prelude.{
  inl, ◌==◌, Bool-cases, ℕ, ◌≡◌, refl, sym, ◌↔◌, ◌⊎◌, inr, List, [], ◌∷◌, ◌++◌, map, arith, ==_refl,
  length,
}
use pdftalk.Embedding.{ChunkData, chunk_row, is_chunk_of, store_chunks}
use pdftalk.Prelude.Action.{ok}
use pdftalk.Prelude.Table.{count, count-append}
use mathlib.Core.List.{append-nil}
use pdftalk.Retrieval.{Chunk}

count-rows :
    {V : Type 0} (uuid4 : ℕ → ℕ) (d u : ℕ) (cs : List (ChunkData V))
    → count (is_chunk_of d) (map (chunk_row uuid4 d u) cs) ≡ length cs
count-rows uuid4 d u [] = refl
count-rows uuid4 d u (c ∷ cs) = ground (arith, ==_refl d, count-rows uuid4 d u cs)

-- Storing chunks appends their rows, in order; it succeeds, with their number, exactly when the
-- document had no chunk before or there is nothing to store.
pub store_chunks_iff :
    {V : Type 0} (uuid4 : ℕ → ℕ) (d u : ℕ) (cs : List (ChunkData V)) (rows : List (Chunk V))
    → let r = store_chunks uuid4 d u cs rows in
      ((r.0 ≡ ok (length cs)) ↔ ((count (is_chunk_of d) rows ≡ 0) ⊎ (length cs ≡ 0)))
      × (r.1 ≡ rows ++ map (chunk_row uuid4 d u) cs)
unfolding store_chunks
store_chunks_iff uuid4 d u [] rows = ((λ h. inr refl, λ h. refl), sym (append-nil rows))
store_chunks_iff uuid4 d u (c ∷ cs) rows =
    let new = map (chunk_row uuid4 d u) (c ∷ cs) in
    let total = count-append (is_chunk_of d) rows new in
    let own = count-rows uuid4 d u (c ∷ cs) in
    elim (Bool-cases (count (is_chunk_of d) (rows ++ new) == length (c ∷ cs))) [
      | inl same ↦
          rw same ((λ h. inl (ground (arith, total, own)), λ h. ground (arith, total, own)), refl)
      | inr other ↦
          rw other ((λ h. absurd (ground arith), λ h. absurd (ground (arith, total, own))), refl)
    ]
