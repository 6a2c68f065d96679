-- ===== src/Prompt/Context.antt =====
-- What fits the context budget.
use pdftalk.Prelude.{
  ◌≡◌, sym, true, false, ◌<◌, refl, ◌⊎◌, All, All-map, ℕ, ◌+◌, ◌≤◌, inl, inr, List, [], ◌∷◌, arith,
  ltb, Bool-cases,
}
use mathlib.Core.Path.{subst}
use pdftalk.Prompt.{build_context_block, Encoder, RetrievedChunk, chunk_total, include}
use mathlib.Core.List.{Sublistᴰ, Memᴰ}

abbrev pub total : Encoder → List RetrievedChunk → ℕ
total enc [] = 0
total enc (c ∷ cs) = chunk_total enc c + total enc cs

module _ (enc : Encoder) (budget : ℕ) where
  include_le :
      (used : ℕ) (cs : List RetrievedChunk)
      → used ≤ budget
      → used + total enc (include enc budget used cs) ≤ budget
  unfolding include
  include_le used [] h = omega arith
  include_le used (c ∷ cs) h = elim (Bool-cases (ltb budget (used + chunk_total enc c))) [
    | inl over ↦ rw (over, include) (include_le used cs h)
    | inr fits ↦ rw (fits, include) (ground (arith, include_le (used + chunk_total enc c) cs))
  ]

  include-sublist : (used : ℕ) (cs : List RetrievedChunk) → Sublistᴰ (include enc budget used cs) cs
  unfolding include
  include-sublist used [] = Sublistᴰ.slnil
  include-sublist used (c ∷ cs) = elim (Bool-cases (ltb budget (used + chunk_total enc c))) [
    | inl over ↦ rw (over, include) (Sublistᴰ.cons (include-sublist used cs))
    | inr fits ↦
        rw (fits, include) (Sublistᴰ.cons-cons refl (include-sublist (used + chunk_total enc c) cs))
  ]

  -- A chunk is in, or does not fit beside those that are.
  abbrev pub FitsOrIsIn : ℕ → List RetrievedChunk → RetrievedChunk → Type 0
  FitsOrIsIn used included c =
      Memᴰ c included ⊎ (budget < used + total enc included + chunk_total enc c)

  shift :
      (used : ℕ) (d : RetrievedChunk) (included : List RetrievedChunk) (c : RetrievedChunk)
      → FitsOrIsIn (used + chunk_total enc d) included c
      → FitsOrIsIn used (d ∷ included) c
  shift used d included c (inl m) = inl (Memᴰ.tail m)
  shift used d included c (inr h) = inr (omega arith)

  include_skip :
      (used : ℕ) (c : RetrievedChunk) (cs : List RetrievedChunk)
      → ltb budget (used + chunk_total enc c) ≡ true
      → include enc budget used (c ∷ cs) ≡ include enc budget used cs
  unfolding include
  include_skip used c cs over = rw (over, include) refl

  include_take :
      (used : ℕ) (c : RetrievedChunk) (cs : List RetrievedChunk)
      → ltb budget (used + chunk_total enc c) ≡ false
      → include enc budget used (c ∷ cs) ≡ c ∷ include enc budget (used + chunk_total enc c) cs
  unfolding include
  include_take used c cs fits = rw (fits, include) refl

  over_budget :
      (used : ℕ) (c : RetrievedChunk) (included : List RetrievedChunk)
      → ltb budget (used + chunk_total enc c) ≡ true
      → budget < used + total enc included + chunk_total enc c
  over_budget used c included over = ground arith

  include_maximal :
      (used : ℕ) (cs : List RetrievedChunk) → All (FitsOrIsIn used (include enc budget used cs)) cs
  include_maximal used [] = tt
  include_maximal used (c ∷ cs) = elim (Bool-cases (ltb budget (used + chunk_total enc c))) [
    | inl over ↦
        subst (λ included. All (FitsOrIsIn used included) (c ∷ cs))
          (sym (include_skip used c cs over))
          (inr (over_budget used c (include enc budget used cs) over), include_maximal used cs)
    | inr fits ↦
        subst (λ included. All (FitsOrIsIn used included) (c ∷ cs))
          (sym (include_take used c cs fits))
          (
            inl (Memᴰ.head refl),
            All-map cs (shift used c _) (include_maximal (used + chunk_total enc c) cs),
          )
  ]

from_zero :
    (enc : Encoder) (budget : ℕ) (included : List RetrievedChunk) (c : RetrievedChunk)
    → FitsOrIsIn enc budget 0 included c
    → Memᴰ c included ⊎ (budget < total enc included + chunk_total enc c)
from_zero enc budget included c (inl m) = inl m
from_zero enc budget included c (inr h) = inr (omega arith)

-- The chunks of the context block are some of the ranked ones, in their order; with their labels
-- they stay within the budget, and every chunk that is left out would have gone past it beside
-- those that are in.
pub build_context_block_greedy :
    (enc : Encoder) (budget : ℕ) (chunks : List RetrievedChunk)
    → let included = (build_context_block enc budget chunks).1 in
      Sublistᴰ included chunks
      × (total enc included ≤ budget)
      × All (λ c. Memᴰ c included ⊎ (budget < total enc included + chunk_total enc c)) chunks
unfolding build_context_block
build_context_block_greedy enc budget chunks = (
  include-sublist enc budget 0 chunks,
  omega (arith, include_le enc budget 0 chunks (omega arith)),
  All-map chunks (from_zero enc budget (include enc budget 0 chunks))
      (include_maximal enc budget 0 chunks),
)
