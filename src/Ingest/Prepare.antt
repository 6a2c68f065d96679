-- ===== src/Ingest/Prepare.antt =====
-- backend/app/workers/ingest.py: the steps of the ingest job that only read, from the extraction
-- to the embeddings.
use pdftalk.Prelude.{
  true, some, Option-cases, [], ◌∷◌, ◌++◌, arith, ltb, Bool-cases, ◌≤◌, ◌<◌, ◌⊎◌, Bool, false, ℕ,
  ◌≡◌, refl, inl, inr, List, length, map, ◌==◌,
}
use pdftalk.Ingest.{
  max_tokens_per_document, check_token_budget, charge, no_chunks, Pipeline, prepare, total_tokens,
}
use pdftalk.Document.{
  unexpected, value_error, daily_quota_exceeded, chunking_error, Chunk, Document, State, Error,
}
use pdftalk.Prelude.Action.{raise_if, Result-cases, ok, err, Result}
use pdftalk.Document.Service.{lift}
use pdftalk.Chunking.{ChunkData, chunk_text}
use pdftalk.Document

-- The rows of one document.
abbrev pub is_chunk_of : ℕ → Chunk → Bool
is_chunk_of i c = c.document_id == i

abbrev pub with_charges : List (ℕ × ℕ) → State → State
with_charges cs s = record s { charges = cs }

-- What the extraction, the tokenizer, the limits and the embedding service have given when the
-- preparation succeeds.
abbrev pub IsPrepared : Pipeline → Document.Document → List ChunkData → List (List ℕ) → Type 0
IsPrepared pipe doc chunks embeddings =
    (blocks : List (List ℕ)) × (pipe.extract_text doc.s3_key doc.mime_type ≡ ok blocks)
    × (chunk_text pipe.tokenizer blocks ≡ some chunks)
    × (0 < length chunks)
    × (total_tokens chunks ≤ max_tokens_per_document)
    × (pipe.over_quota doc.user_id (total_tokens chunks) ≡ some false)
    × (pipe.embed_texts (map (λ c. c.text) chunks) ≡ ok embeddings)
    × (length embeddings ≡ length chunks)

-- The preparation charges usage and writes nothing; it fails, or gives what `IsPrepared` states.
abbrev pub Prepares :
    Pipeline
    → Document.Document
    → State
    → Result Error (List ChunkData × List (List ℕ)) × State
    → Type 0
Prepares pipe doc s out =
    (cs : List (ℕ × ℕ)) × (out.1 ≡ with_charges cs s)
    × (((e : Error) × (out.0 ≡ err e))
        ⊎ ((chunks : List ChunkData) × (embeddings : List (List ℕ)) × (out.0
              ≡ ok (chunks, embeddings))
            × IsPrepared pipe doc chunks embeddings))

some_chunks : (chunks : List ChunkData) → no_chunks chunks ≡ false → 0 < length chunks
unfolding no_chunks
some_chunks [] h = ground arith
some_chunks (c ∷ cs) h = omega arith

pub prepare-Prepares :
    (pipe : Pipeline) (doc : Document.Document) (s : State)
    → Prepares pipe doc s (prepare pipe doc s)
unfolding prepare lift check_token_budget charge
prepare-Prepares pipe doc s = elim (Result-cases (pipe.extract_text doc.s3_key doc.mime_type)) [
  | inl (e, bad) ↦ rw bad (s.charges, refl, inl (e, refl))
  | inr (blocks, good) ↦ elim (Option-cases (chunk_text pipe.tokenizer blocks)) [
    | inl refused ↦ rw (good, refused) (s.charges, refl, inl (value_error, refl))
    | inr (chunks, cut) ↦
        let total = total_tokens chunks in
        let charged = s.charges ++ (doc.user_id, total) ∷ [] in
        elim (Bool-cases (no_chunks chunks)) [
          | inl none_made ↦
              rw (good, cut) (rw none_made (s.charges, refl, inl (chunking_error, refl)))
          | inr made ↦ elim (Bool-cases (ltb max_tokens_per_document total)) [
            | inl over ↦
                rw (good, cut) (rw made (rw over (s.charges, refl, inl (chunking_error, refl))))
            | inr within ↦ elim (Option-cases (pipe.over_quota doc.user_id total)) [
              | inl down ↦
                  rw (good, cut)
                    (rw made (
                      rw within
                        (rw (down, lift, charge) (s.charges, refl, inl (unexpected, refl)))))
              | inr (true, spent) ↦
                  rw (good, cut)
                    (rw made (
                      rw within (
                        rw (spent, lift, charge)
                          (charged, refl, inl (daily_quota_exceeded, refl)))))
              | inr (false, left) ↦
                  elim (Result-cases (pipe.embed_texts (map (λ c. c.text) chunks))) [
                    | inl (e, refused) ↦
                        rw (good, cut)
                          (rw made (
                            rw within (
                              rw (left, lift, charge)
                                (rw (refused, lift, charge) (charged, refl, inl (e, refl))))))
                    | inr (embeddings, answered) ↦
                        elim (Bool-cases (length embeddings == length chunks)) [
                          | inl same ↦
                              rw (good, cut)
                                (rw made (
                                  rw within (
                                    rw (left, lift, charge)
                                      (rw (answered, lift, charge)
                                        (rw (same, raise_if)
                                          (
                                            charged,
                                            refl,
                                            inr (
                                              chunks,
                                              embeddings,
                                              refl,
                                              (
                                                blocks,
                                                refl,
                                                cut,
                                                some_chunks chunks made,
                                                ground arith,
                                                left,
                                                answered,
                                                ground arith,
                                              ),
                                            ),
                                          ))))))
                          | inr differ ↦
                              rw (good, cut)
                                (rw made (
                                  rw within (
                                    rw (left, lift, charge)
                                      (rw (answered, lift, charge)
                                        (rw (differ, raise_if)
                                          (charged, refl, inl (value_error, refl)))))))
                        ]
                  ]
            ]
          ]
        ]
  ]
]
