-- ===== src/Tests/Texts.antt =====
-- Small texts: an upload, a chunking, and the prompt's blocks
-- (backend/app/services/file_validation.py, chunking.py, prompt.py).
use pdftalk.FileValidation.{
  is_allowed_mime, read_loop, check_mime, check_magic_bytes, max_file_size_bytes,
  read_and_check_size, starts_with_pdf, validate_upload,
}
use mathlib.Core.List.{Sublistᴰ, Memᴰ}
use pdftalk.Prelude.{
  some, ◌+◌, ◌≤◌, ◌<◌, ◌≡◌, refl, ◌⊎◌, true, false, List, [], ◌∷◌, length, All, str_eq, ℕ,
}
use pdftalk.Prompt.{Message, RetrievedChunk, chunk_total, build_context_block, Role, Encoder}
use pdftalk.Prompt.History.{History}
use pdftalk.Prompt.Context.{total, build_context_block_greedy}
use pdftalk.FileValidation.Bounds.{content, validate_upload_sound}
use pdftalk.Chunking.Coverage.{recombine, IsWindow, chunk_text_covers}
use pdftalk.Prelude.Action.{ok}
use pdftalk.Tests.Jobs.{by_character}
use pdftalk.Chunking.{chunk_text}
use pdftalk.Chunking.Windows.{label}

-- "%PDF" in two reads.
abbrev pdf_reads : List (List ℕ)
pdf_reads = (37 ∷ 80 ∷ []) ∷ (68 ∷ 70 ∷ []) ∷ [] ∷ []

accepted : validate_upload (λ raw. "application/pdf") pdf_reads ≡ ok (37 ∷ 80 ∷ 68 ∷ 70 ∷ [])
unfolding validate_upload check_mime check_magic_bytes read_and_check_size read_loop is_allowed_mime
accepted = refl

validate_upload_sound_example :
    let raw : List ℕ = 37 ∷ 80 ∷ 68 ∷ 70 ∷ [] in
    (raw ≡ content pdf_reads)
    × (length raw ≤ max_file_size_bytes)
    × (is_allowed_mime "application/pdf" ≡ true)
    × ((str_eq "application/pdf" "application/pdf" ≡ false) ⊎ (starts_with_pdf raw ≡ true))
validate_upload_sound_example =
    validate_upload_sound (λ raw. "application/pdf") pdf_reads (37 ∷ 80 ∷ 68 ∷ 70 ∷ []) accepted

chunk_text_covers_example :
    (ws : List (List ℕ)) × (chunk_text by_character ((104 ∷ []) ∷ [] ∷ (105 ∷ []) ∷ [])
      ≡ some (label by_character 0 ws))
    × (recombine ws ≡ 104 ∷ 105 ∷ [])
    × All IsWindow ws
chunk_text_covers_example = chunk_text_covers by_character ((104 ∷ []) ∷ [] ∷ (105 ∷ []) ∷ [])

abbrev pub plain : Encoder
plain = record { encode = λ t. t; decode = λ t. t; uuid_text = λ i. i ∷ [] }

abbrev hit : ℕ → ℕ → RetrievedChunk
hit i n = record {
  chunk_id = i;
  document_id = 1;
  chunk_index = i;
  text = 120 ∷ [];
  token_count = n;
  filename = 97 ∷ [];
  distance = i;
}

-- The second chunk alone is too long for a budget of 40 tokens.
build_context_block_greedy_example :
    let chunks = hit 0 5 ∷ hit 1 90 ∷ hit 2 5 ∷ [] in
    let included = (build_context_block plain 40 chunks).1 in
    Sublistᴰ included chunks
    × (total plain included ≤ 40)
    × All (λ c. Memᴰ c included ⊎ (40 < total plain included + chunk_total plain c)) chunks
build_context_block_greedy_example =
    build_context_block_greedy plain 40 (hit 0 5 ∷ hit 1 90 ∷ hit 2 5 ∷ [])

abbrev said : Role → ℕ → Message
said r n = record { role = r; content = 104 ∷ []; token_count = n }
