-- ===== src/Chunking.antt =====
-- backend/app/services/chunking.py: the streaming split of a text into windows of 512 tokens that
-- overlap by 64. The tokenizer (tiktoken) and Python's test for a blank text are arguments.
pub mod Windows
pub mod Coverage
use pdftalk.Prelude.{
  Option, none, some, ℕ, zero, suc, Bool, true, false, not, ◌&&◌, ◌||◌, List, [], ◌∷◌, ◌++◌, ltb,
  leb, if◌then◌else◌, length, take, drop,
}

abbrev pub chunk_size : ℕ
chunk_size = 512

abbrev pub chunk_overlap : ℕ
chunk_overlap = 64

abbrev pub chunk_step : ℕ
chunk_step = 448

-- A text is the list of its characters. `is_blank t` is `not t or not t.strip()`. `encodes t` is
-- false where `encode` raises a `ValueError`, as for the text of a special token.
pub record Tokenizer : Type 0 where
  pub encode : List ℕ → List ℕ
  pub decode : List ℕ → List ℕ
  pub is_blank : List ℕ → Bool
  pub encodes : List ℕ → Bool

pub record ChunkData : Type 0 where
  pub chunk_index : ℕ
  pub text : List ℕ
  pub token_count : ℕ

-- chunks.append(ChunkData(len(chunks), enc.decode(window), len(window)))
abbrev pub emit : Tokenizer → List ChunkData → List ℕ → List ChunkData
emit tok chunks window =
    chunks
    ++ record { chunk_index = length chunks; text = tok.decode window; token_count = length window }
      ∷ []

-- The `while` loop, on fuel; a round takes 448 tokens off the buffer.
drain : Tokenizer → ℕ → List ChunkData → List ℕ → List ChunkData × List ℕ
drain tok zero chunks buffer = (chunks, buffer)
drain tok (suc fuel) chunks buffer =
    let rest = drain tok fuel (emit tok chunks (take chunk_size buffer)) (drop chunk_step buffer) in
    if leb chunk_size (length buffer) then rest else (chunks, buffer)

-- The loop over the text blocks.
pub blocks_loop : Tokenizer → List (List ℕ) → List ChunkData → List ℕ → List ChunkData × List ℕ
blocks_loop tok [] chunks buffer = (chunks, buffer)
blocks_loop tok (block ∷ blocks) chunks buffer =
    let buffer' = buffer ++ tok.encode block in
    let (c, b) = drain tok (suc (length buffer')) chunks buffer' in
    elim (tok.is_blank block) [
      | true ↦ blocks_loop tok blocks chunks buffer
      | false ↦ blocks_loop tok blocks c b
    ]

is_empty : {A : Type 0} → List A → Bool
is_empty [] = true
is_empty (x ∷ xs) = false

-- The trailing chunk, if it holds tokens that no chunk before it has.
emit_rest : Tokenizer → List ChunkData → List ℕ → List ChunkData
unfolding is_empty
emit_rest tok chunks buffer =
    if not (is_empty buffer) && (is_empty chunks || ltb chunk_overlap (length buffer))
    then emit tok chunks buffer
    else chunks

-- The blocks that are encoded are those that are not blank.
abbrev pub encodes_all : Tokenizer → List (List ℕ) → Bool
encodes_all tok [] = true
encodes_all tok (block ∷ blocks) =
    (tok.is_blank block || tok.encodes block) && encodes_all tok blocks

-- The chunks, when nothing is raised.
unfoldable pub chunk_encoded : Tokenizer → List (List ℕ) → List ChunkData
unfolding drain blocks_loop emit_rest
chunk_encoded tok blocks = let (c, b) = blocks_loop tok blocks [] [] in emit_rest tok c b

-- Nothing stands for the `ValueError`.
unfoldable pub chunk_text : Tokenizer → List (List ℕ) → Option (List ChunkData)
chunk_text tok blocks = if encodes_all tok blocks then some (chunk_encoded tok blocks) else none
