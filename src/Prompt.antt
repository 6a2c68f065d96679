-- ===== src/Prompt.antt =====
-- backend/app/services/prompt.py: the context block, the history block and the message list. A
-- text is the list of its characters; tiktoken's encoder and the writing of a UUID are arguments.
pub mod Context
pub mod History
use mathlib.Core.List.{reverse}
use pdftalk.Prelude.{
  ℕ, ◌+◌, ◌-◌, true, false, List, [], ◌∷◌, ◌++◌, map, ltb, leb, if◌then◌else◌, length, drop,
}
use pdftalk.Prelude.Text.{codes}

pub record Encoder : Type 0 where
  pub encode : List ℕ → List ℕ
  pub decode : List ℕ → List ℕ
  pub uuid_text : ℕ → List ℕ

-- services/retrieval.py; a distance is only compared, so it is a number.
pub record RetrievedChunk : Type 0 where
  pub chunk_id : ℕ
  pub document_id : ℕ
  pub chunk_index : ℕ
  pub text : List ℕ
  pub token_count : ℕ
  pub filename : List ℕ
  pub distance : ℕ

unfoldable pub count_tokens : Encoder → List ℕ → ℕ
count_tokens enc text = length (enc.encode text)

-- f"[{chunk.filename} | {chunk.document_id}]\n"
label_of : Encoder → RetrievedChunk → List ℕ
label_of enc c =
    codes "[" ++ (c.filename ++ (codes " | " ++ (enc.uuid_text c.document_id ++ codes "]\n")))

-- `chunk_total`: the chunk with its label.
unfoldable pub chunk_total : Encoder → RetrievedChunk → ℕ
unfolding label_of count_tokens
chunk_total enc c = c.token_count + count_tokens enc (label_of enc c)

-- The loop that fills the budget.
include : Encoder → ℕ → ℕ → List RetrievedChunk → List RetrievedChunk
include enc budget tokens_used [] = []
include enc budget tokens_used (c ∷ cs) = elim (ltb budget (tokens_used + chunk_total enc c)) [
  | true ↦ include enc budget tokens_used cs
  | false ↦ c ∷ include enc budget (tokens_used + chunk_total enc c) cs
]

part_of : Encoder → RetrievedChunk → List ℕ
unfolding label_of
part_of enc c = label_of enc c ++ c.text

join : List ℕ → List (List ℕ) → List ℕ
join sep [] = []
join sep (p ∷ []) = p
join sep (p ∷ q ∷ ps) = p ++ (sep ++ join sep (q ∷ ps))

unfoldable pub build_context_block :
    Encoder → ℕ → List RetrievedChunk → List ℕ × List RetrievedChunk
unfolding include part_of join
build_context_block enc budget chunks =
    let included = include enc budget 0 chunks in
    (join (codes "\n\n---\n\n") (map (part_of enc) included), included)

pub data Role : Type 0 where
  system user assistant : Role

pub record Message : Type 0 where
  pub role : Role
  pub content : List ℕ
  pub token_count : ℕ

pub record Entry : Type 0 where
  pub role : Role
  pub content : List ℕ

abbrev pub entry : Message → Entry
entry m = record { role = m.role; content = m.content }

-- tokens[-n:], for a positive n
abbrev pub last_tokens : ℕ → List ℕ → List ℕ
last_tokens n tokens = drop (length tokens - n) tokens

-- The newest message, when it alone exceeds the budget.
pub truncated : Encoder → ℕ → Message → List Entry
truncated enc allowed m =
    if ltb 0 allowed
    then record { role = m.role; content = enc.decode (last_tokens allowed (enc.encode m.content)) }
      ∷ []
    else []

-- The walk from the newest message to the oldest.
walk : Encoder → ℕ → ℕ → List Entry → List Message → List Entry
walk enc budget used selected [] = selected
walk enc budget used selected (m ∷ older) = elim (leb (used + m.token_count) budget) [
  | true ↦ walk enc budget (used + m.token_count) (entry m ∷ selected) older
  | false ↦ elim selected [ [] ↦ truncated enc (budget - used) m | e ∷ es ↦ e ∷ es ]
]

unfoldable pub build_history_block : Encoder → ℕ → List Message → List Entry
unfolding walk truncated
build_history_block enc budget messages = walk enc budget 0 [] (reverse messages)

-- `system_prompt` and `no_content_hint` are the two fixed texts of the source.
unfoldable pub build_messages :
    Encoder
    → List ℕ
    → List ℕ
    → ℕ
    → ℕ
    → List RetrievedChunk
    → List ℕ
    → List Message
    → List Entry × List RetrievedChunk
build_messages enc system_prompt no_content_hint context_budget history_budget chunks question
      history =
    let (block, included) = build_context_block enc context_budget chunks in
    let context : List ℕ = elim included [ [] ↦ no_content_hint | c ∷ cs ↦ block ] in
    let question_text = codes "Context:\n" ++ (context ++ (codes "\n\nQuestion: " ++ question)) in
    (
      record { role = system; content = system_prompt }
          ∷ (build_history_block enc history_budget history
              ++ record { role = user; content = question_text } ∷ []),
      included,
    )
