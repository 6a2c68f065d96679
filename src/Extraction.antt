-- ===== src/Extraction.antt =====
-- backend/app/services/extraction.py: the text of an uploaded file, as the blocks that its generator
-- yields. Unicode's tables, the UTF-8 decoder, the object store, PyMuPDF and tesseract are arguments.
pub mod Clean
pub mod Stream
pub mod Outcome
use pdftalk.Prelude.{
  ℕ, zero, suc, ◌+◌, String, Bool, true, false, not, ◌||◌, Option, none, some, List, [], ◌∷◌, ◌++◌,
  map, ltb, ◌==◌, if◌then◌else◌, length, str_eq,
}
use pdftalk.Document.{Error, extraction_error}
use pdftalk.Prelude.Action.{Result, ok, err}
use pdftalk.Prelude.Table.{select}
use mathlib.Core.List.{reverse}

-- `nfc` is `unicodedata.normalize("NFC", text)`, `is_control` tells a category that starts with C, and
-- `decode` and `flush` are the incremental decoder's, with the bytes that it holds back.
pub record Codec : Type 0 where
  pub nfc : List ℕ → List ℕ
  pub is_control : ℕ → Bool
  pub is_space : ℕ → Bool
  pub decode : List ℕ → List ℕ → List ℕ × List ℕ
  pub flush : List ℕ → List ℕ

abbrev pub newline : ℕ
newline = 10

abbrev pub tab : ℕ
tab = 9

-- `"".join(texts)`
abbrev pub join_texts : List (List ℕ) → List ℕ
join_texts [] = []
join_texts (t ∷ ts) = t ++ join_texts ts

abbrev pub is_kept : Codec → ℕ → Bool
is_kept c ch = ch == newline || ch == tab || not (c.is_control ch)

-- What replaces a run of newlines.
abbrev pub run_of : ℕ → List ℕ
run_of zero = []
run_of (suc zero) = newline ∷ []
run_of (suc (suc n)) = newline ∷ newline ∷ []

-- `re.sub(r"\n{3,}", "\n\n", text)`, with the length of the run that is being read.
pub collapse : ℕ → List ℕ → List ℕ
collapse run [] = run_of run
collapse run (ch ∷ text) = elim (ch == newline) [
  | true ↦ collapse (run + 1) text
  | false ↦ run_of run ++ ch ∷ collapse 0 text
]

pub skip_space : Codec → List ℕ → List ℕ
skip_space c [] = []
skip_space c (ch ∷ text) = let rest = skip_space c text in if c.is_space ch then rest else ch ∷ text

-- `text.strip()`
unfoldable pub strip : Codec → List ℕ → List ℕ
unfolding skip_space
strip c text = reverse (skip_space c (reverse (skip_space c text)))

-- `_clean`
unfoldable pub clean : Codec → Bool → List ℕ → List ℕ
unfolding collapse strip
clean c stripped text =
    let lines = collapse 0 (select (is_kept c) (c.nfc text)) in
    if stripped then strip c lines else lines

abbrev pub block_size : ℕ
block_size = 1048576

-- `text_buffer` and `buffer_len`
pub record Buffer : Type 0 where
  pub parts : List (List ℕ)
  pub size : ℕ

abbrev pub no_text : Buffer
no_text = record { parts = []; size = 0 }

-- A decoded text goes to the buffer; a full buffer is yielded as a block.
take_text : Codec → Buffer → List ℕ → List (List ℕ) × Buffer
take_text c b [] = ([], b)
take_text c b (ch ∷ text) =
    let parts = b.parts ++ (ch ∷ text) ∷ [] in
    let size = b.size + length (ch ∷ text) in
    if ltb block_size size
    then (clean c false (join_texts parts) ∷ [], no_text)
    else ([], record { parts = parts; size = size })

-- The loop over the chunks of bytes: the blocks, and what is held back after them.
decode_loop : Codec → List (List ℕ) → List ℕ → Buffer → List (List ℕ) × (List ℕ × Buffer)
decode_loop c [] held b = ([], (held, b))
decode_loop c (chunk ∷ chunks) held b =
    let (text, held') = c.decode held chunk in
    let (block, b') = take_text c b text in
    let (blocks, last) = decode_loop c chunks held' b' in (block ++ blocks, last)

abbrev push_text : List (List ℕ) → List ℕ → List (List ℕ)
push_text parts [] = parts
push_text parts (ch ∷ text) = parts ++ (ch ∷ text) ∷ []

abbrev pub last_block : Codec → List (List ℕ) → List (List ℕ)
last_block c [] = []
last_block c (t ∷ ts) = clean c true (join_texts (t ∷ ts)) ∷ []

-- A body that yields chunks, and then ends or raises.
pub record Body : Type 0 where
  pub chunks : List (List ℕ)
  pub breaks : Bool

-- A generator's run: what it yields, then whether it raises.
abbrev pub Run : Type 0
Run = List (List ℕ) × Option Error

-- `_extract_plaintext_stream`
unfoldable pub extract_plaintext_stream : Codec → Body → Run
unfolding take_text decode_loop
extract_plaintext_stream c body =
    let (blocks, last) = decode_loop c body.chunks [] no_text in
    let (held, b) = last in
    if body.breaks
    then (blocks, some extraction_error)
    else (blocks ++ last_block c (push_text b.parts (c.flush held)), none)

-- `none` is an exception of `get_text`, or of the OCR.
pub record Page : Type 0 where
  pub embedded : Option (List ℕ)
  pub scanned : Option (List ℕ)

-- `locked` is `is_encrypted` with `authenticate("") == 0`.
pub record Pdf : Type 0 where
  pub locked : Bool
  pub pages : List Page

stripped_or_empty : Codec → Option (List ℕ) → List ℕ
stripped_or_empty c none = []
stripped_or_empty c (some text) = strip c text

-- `_ocr_page`
ocr_page : Codec → Page → List ℕ
unfolding stripped_or_empty
ocr_page c page = stripped_or_empty c page.scanned

-- `if not text: text = _ocr_page(...)`
or_ocr : Codec → Page → List ℕ → List ℕ
or_ocr c page [] = ocr_page c page
or_ocr c page (ch ∷ text) = ch ∷ text

pub page_text : Codec → Page → List ℕ
unfolding stripped_or_empty or_ocr ocr_page
page_text c page = or_ocr c page (stripped_or_empty c page.embedded)

-- `"\n\n".join(pages)`
abbrev pub join_pages : List (List ℕ) → List ℕ
join_pages [] = []
join_pages (p ∷ []) = p
join_pages (p ∷ q ∷ ps) = p ++ newline ∷ newline ∷ join_pages (q ∷ ps)

-- `_extract_pdf`; `none` is a `FileDataError`.
pub extract_pdf : Codec → Option Pdf → Result Error (List ℕ)
unfolding page_text
extract_pdf c none = err extraction_error
extract_pdf c (some pdf) =
    if pdf.locked
    then err extraction_error
    else ok (clean c true (join_pages (map (page_text c) pdf.pages)))

-- The object store's answers, and what PyMuPDF makes of some bytes.
pub record Files : Type 0 where
  pub download_file : String → Result Error (List ℕ)
  pub download_file_streaming : String → Result Error Body
  pub open_pdf : List ℕ → Option Pdf

abbrev pub yield_one : Result Error (List ℕ) → Run
yield_one (ok text) = (text ∷ [], none)
yield_one (err e) = ([], some e)

abbrev pub with_download : (List ℕ → Run) → Result Error (List ℕ) → Run
with_download f (ok raw) = f raw
with_download f (err e) = ([], some e)

abbrev pub with_body : (Body → Run) → Result Error Body → Run
with_body f (ok body) = f body
with_body f (err e) = ([], some e)

abbrev pub is_plaintext : String → Bool
is_plaintext mime_type = str_eq mime_type "text/plain" || str_eq mime_type "text/markdown"

unfoldable pub extract_text : Codec → Files → String → String → Run
unfolding extract_pdf
extract_text c files s3_key mime_type =
    if str_eq mime_type "application/pdf"
    then with_download (λ raw. yield_one (extract_pdf c (files.open_pdf raw)))
        (files.download_file s3_key)
    else if is_plaintext mime_type
    then with_body (extract_plaintext_stream c) (files.download_file_streaming s3_key)
    else ([], some extraction_error)

-- What the chunker, which reads the generator to its end, meets.
abbrev pub read_to_end : Run → Result Error (List (List ℕ))
read_to_end (blocks, none) = ok blocks
read_to_end (blocks, some e) = err e
