-- ===== src/FileValidation/Bounds.antt =====
-- What an accepted upload satisfies, and when the read loop refuses.
use pdftalk.Prelude.{
  false, String, refl, inl, inr, true, arith, ltb, Bool-cases, length-append, str_eq, ℕ, ◌≡◌, ◌⊎◌,
  List, [], ◌∷◌, ◌++◌, ◌+◌, ◌≤◌, ◌<◌, length,
}
use pdftalk.FileValidation.{
  check_mime, starts_with_pdf, check_magic_bytes, is_allowed_mime, read_and_check_size,
  validate_upload, max_file_size_bytes, read_loop,
}
use mathlib.Core.List.{append_assoc, append-nil}
use pdftalk.Prelude.Action.{Result, ok, err}
use pdftalk.Document.{Error, file_too_large}

-- What the stream holds: the reads up to the first empty one.
abbrev pub content : List (List ℕ) → List ℕ
content [] = []
content ([] ∷ reads) = []
content ((b ∷ bs) ∷ reads) = (b ∷ bs) ++ content reads

-- The loop joins the whole stream when it fits the limit, and otherwise refuses.
abbrev Joins : List (List ℕ) → ℕ → List ℕ → Result Error (List ℕ) → Type 0
Joins reads total chunks r =
    ((total + length (content reads) ≤ max_file_size_bytes) × (r ≡ ok (chunks ++ content reads)))
    ⊎ ((max_file_size_bytes < total + length (content reads)) × (r ≡ err file_too_large))

read_loop-Joins :
    (reads : List (List ℕ)) (total : ℕ) (chunks : List ℕ)
    → total ≤ max_file_size_bytes
    → Joins reads total chunks (read_loop reads total chunks)
unfolding read_loop
read_loop-Joins [] total chunks h = inl (omega arith, rw append-nil)
read_loop-Joins ([] ∷ reads) total chunks h = inl (omega arith, rw append-nil)
read_loop-Joins ((b ∷ bs) ∷ reads) total chunks h =
    elim (Bool-cases (ltb max_file_size_bytes (total + length (b ∷ bs)))) [
      | inl over ↦ rw over (inr (ground (arith, length-append (b ∷ bs) (content reads)), refl))
      | inr fits ↦ rw fits (
          ground (
            arith,
            length-append (b ∷ bs) (content reads),
            append_assoc chunks (b ∷ bs) (content reads),
            read_loop-Joins reads (total + length (b ∷ bs)) (chunks ++ b ∷ bs),
          ))
    ]

-- The stream is returned whole exactly when it holds at most 50 MB, and refused as too large
-- exactly when it holds more.
read_and_check_size-Joins :
    (reads : List (List ℕ))
    → ((length (content reads) ≤ max_file_size_bytes)
        × (read_and_check_size reads ≡ ok (content reads)))
      ⊎ ((max_file_size_bytes < length (content reads))
          × (read_and_check_size reads ≡ err file_too_large))
unfolding read_and_check_size
read_and_check_size-Joins reads = ground (arith, read_loop-Joins reads 0 [])

-- An accepted upload is the whole stream, at most 50 MB, of an allowed detected type, and a PDF
-- among them begins with %PDF.
pub validate_upload_sound :
    (from_buffer : List ℕ → String) (reads : List (List ℕ)) (raw : List ℕ)
    → validate_upload from_buffer reads ≡ ok raw
    → (raw ≡ content reads)
      × (length raw ≤ max_file_size_bytes)
      × (is_allowed_mime (from_buffer raw) ≡ true)
      × ((str_eq (from_buffer raw) "application/pdf" ≡ false) ⊎ (starts_with_pdf raw ≡ true))
unfolding validate_upload check_mime check_magic_bytes
validate_upload_sound from_buffer reads raw h = ground (arith, read_and_check_size-Joins reads)
