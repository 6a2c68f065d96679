-- ===== src/FileValidation.antt =====
-- backend/app/services/file_validation.py. libmagic is the argument `from_buffer`; the upload is
-- the list of what its successive reads return, and a read that returns nothing ends it.
pub mod Bounds
use pdftalk.Prelude.{
  ℕ, String, Bool, false, ◌||◌, List, [], ◌∷◌, ◌++◌, ◌+◌, ◌*◌, ltb, length, if◌then◌else◌, str_eq,
  ◌==◌, ◌&&◌,
}
use pdftalk.Prelude.Action.{Result, ok, err}
use pdftalk.Document.{Error, file_too_large, unsupported_mime, invalid_magic_bytes}

abbrev pub max_file_size_bytes : ℕ
max_file_size_bytes = 50 * 1024 * 1024

-- `mime in ALLOWED_MIME_TYPES`
unfoldable pub is_allowed_mime : String → Bool
is_allowed_mime m = str_eq m "application/pdf" || str_eq m "text/plain" || str_eq m "text/markdown"

unfoldable pub validate_upload_metadata : String → String → ℕ → Result Error (Unit {0})
validate_upload_metadata filename mime_type file_size_bytes =
    if ltb max_file_size_bytes file_size_bytes
    then err file_too_large
    else if is_allowed_mime mime_type
    then ok tt
    else err unsupported_mime

-- The loop of `_read_and_check_size`: `total` and the joined `chunks` so far.
unfoldable pub read_loop : List (List ℕ) → ℕ → List ℕ → Result Error (List ℕ)
read_loop [] total chunks = ok chunks
read_loop ([] ∷ reads) total chunks = ok chunks
read_loop ((b ∷ bs) ∷ reads) total chunks =
    let total' = total + length (b ∷ bs) in
    let rest = read_loop reads total' (chunks ++ b ∷ bs) in
    if ltb max_file_size_bytes total' then err file_too_large else rest

unfoldable pub read_and_check_size : List (List ℕ) → Result Error (List ℕ)
unfolding read_loop
read_and_check_size reads = read_loop reads 0 []

unfoldable pub check_mime : (List ℕ → String) → List ℕ → Result Error (Unit {0})
check_mime from_buffer bytes =
    if is_allowed_mime (from_buffer bytes) then ok tt else err unsupported_mime

-- data[:4] == b"%PDF"
unfoldable pub starts_with_pdf : List ℕ → Bool
starts_with_pdf (a ∷ b ∷ c ∷ d ∷ rest) = a == b'%' && b == b'P' && c == b'D' && d == b'F'
starts_with_pdf _ = false

unfoldable pub check_magic_bytes : (List ℕ → String) → List ℕ → Result Error (Unit {0})
unfolding starts_with_pdf
check_magic_bytes from_buffer bytes =
    if str_eq (from_buffer bytes) "application/pdf"
    then (if starts_with_pdf bytes then ok tt else err invalid_magic_bytes)
    else ok tt

infixl 5 ◌>>=◌ ◌>>◌
abbrev ◌>>=◌ : {A B : Type 0} → Result Error A → (A → Result Error B) → Result Error B
ok a >>= f = f a
err e >>= f = err e

abbrev ◌>>◌ : {A B : Type 0} → Result Error A → Result Error B → Result Error B
m >> k = m >>= λ _. k

unfoldable pub validate_upload : (List ℕ → String) → List (List ℕ) → Result Error (List ℕ)
unfolding read_and_check_size check_mime check_magic_bytes
validate_upload from_buffer reads = do
  raw ← read_and_check_size reads
  check_mime from_buffer raw
  check_magic_bytes from_buffer raw
  ok raw
