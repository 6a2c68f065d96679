-- ===== src/Extraction/Outcome.antt =====
-- When the extraction of a file's text raises (backend/app/services/extraction.py, `extract_text`).
use pdftalk.Prelude.{
  ◌↔◌, refl, sym, Option, none, ℕ, String, ◌≡◌, ap, inl, inr, true, false, some, List, arith,
  eq_iff, Bool-cases, str_eq,
}
use pdftalk.Document.{Error}
use pdftalk.Extraction.{
  Run, extract_pdf, yield_one, with_download, read_to_end, Codec, Files, Body, Pdf, extract_text,
  extract_plaintext_stream, is_plaintext, with_body,
}
use mathlib.Core.Path.{subst}
use pdftalk.Prelude.Action.{Result, ok, err}

-- The file is a PDF that opens without a password, or a plain text whose body is read to its end.
pub data IsReadable (files : Files) (s3_key mime_type : String) : Type 0 where
  a_pdf :
      (raw : List ℕ) (pdf : Pdf)
      → mime_type ≡ "application/pdf"
      → files.download_file s3_key ≡ ok raw
      → files.open_pdf raw ≡ some pdf
      → pdf.locked ≡ false
      → IsReadable files s3_key mime_type
  a_text :
      (body : Body)
      → is_plaintext mime_type ≡ true
      → files.download_file_streaming s3_key ≡ ok body
      → body.breaks ≡ false
      → IsReadable files s3_key mime_type

plaintext_not_pdf : (m : String) → is_plaintext m ≡ true → str_eq m "application/pdf" ≡ false
plaintext_not_pdf m h = elim (Bool-cases (str_eq m "application/pdf")) [
  | inl same ↦
      let e : m ≡ "application/pdf" = (eq_iff m "application/pdf").0 same in
      let bad : is_plaintext "application/pdf" ≡ true =
        subst (λ (x : String). is_plaintext x ≡ true) e h in
      absurd (ground arith)
  | inr other ↦ other
]

-- A plain text file goes to the streaming reader.
pub extract_text_plain :
    (c : Codec) (files : Files) (s3_key mime_type : String) (body : Body)
    → is_plaintext mime_type ≡ true
    → files.download_file_streaming s3_key ≡ ok body
    → extract_text c files s3_key mime_type ≡ extract_plaintext_stream c body
unfolding extract_text
extract_text_plain c files s3_key mime_type body plain opened =
    rw (plaintext_not_pdf mime_type plain)
      (rw plain (ap (with_body (extract_plaintext_stream c)) opened))

abbrev pub Completes : Run → Type 0
Completes run = (blocks : List (List ℕ)) × (read_to_end run ≡ ok blocks)

pub stream_ends :
    (c : Codec) (body : Body) → Completes (extract_plaintext_stream c body) → body.breaks ≡ false
unfolding extract_plaintext_stream
stream_ends c body (blocks, h) = elim (Bool-cases body.breaks) [
  | inl broken ↦ absurd (ground arith)
  | inr whole ↦ whole
]

ends_stream :
    (c : Codec) (body : Body) → body.breaks ≡ false → Completes (extract_plaintext_stream c body)
unfolding extract_plaintext_stream
ends_stream c body h = rw h (_, refl)

plain_ends :
    (c : Codec) (files : Files) (s3_key mime_type : String)
    → is_plaintext mime_type ≡ true
    → (r : Result Error Body) → files.download_file_streaming s3_key ≡ r
    → Completes (with_body (extract_plaintext_stream c) r)
    → IsReadable files s3_key mime_type
plain_ends c files s3_key mime_type plain (ok body) opened h =
    IsReadable.a_text body plain opened (stream_ends c body h)
plain_ends c files s3_key mime_type plain (err e) opened (blocks, h) = absurd (ground arith)

pdf_ends :
    (c : Codec) (files : Files) (s3_key mime_type : String) (raw : List ℕ)
    → mime_type ≡ "application/pdf"
    → files.download_file s3_key ≡ ok raw
    → (pdf : Option Pdf) → files.open_pdf raw ≡ pdf
    → Completes (yield_one (extract_pdf c pdf))
    → IsReadable files s3_key mime_type
unfolding extract_pdf
pdf_ends c files s3_key mime_type raw m got none opened (blocks, h) = absurd (ground arith)
pdf_ends c files s3_key mime_type raw m got (some pdf) opened (blocks, h) =
    elim (Bool-cases pdf.locked) [
      | inl locked ↦ absurd (ground arith)
      | inr free ↦ IsReadable.a_pdf raw pdf m got opened free
    ]

downloaded_ends :
    (c : Codec) (files : Files) (s3_key mime_type : String)
    → mime_type ≡ "application/pdf"
    → (r : Result Error (List ℕ)) → files.download_file s3_key ≡ r
    → Completes (with_download (λ raw. yield_one (extract_pdf c (files.open_pdf raw))) r)
    → IsReadable files s3_key mime_type
downloaded_ends c files s3_key mime_type m (ok raw) got h =
    pdf_ends c files s3_key mime_type raw m got (files.open_pdf raw) refl h
downloaded_ends c files s3_key mime_type m (err e) got (blocks, h) = absurd (ground arith)

ends_only_if :
    (c : Codec) (files : Files) (s3_key mime_type : String)
    → Completes (extract_text c files s3_key mime_type)
    → IsReadable files s3_key mime_type
unfolding extract_text
ends_only_if c files s3_key mime_type h = elim (Bool-cases (str_eq mime_type "application/pdf")) [
  | inl pdf ↦
      downloaded_ends c files s3_key mime_type ((eq_iff mime_type "application/pdf").0 pdf)
        (files.download_file s3_key) refl (rw (pdf, extract_text) at h)
  | inr other ↦ elim (Bool-cases (is_plaintext mime_type)) [
    | inl plain ↦
        plain_ends c files s3_key mime_type plain (files.download_file_streaming s3_key) refl
          (rw (plain, extract_text) at (rw (other, extract_text) at h))
    | inr neither ↦
        let bad = (rw (neither, extract_text) at (rw (other, extract_text) at h)) in
        absurd (ground (arith, bad.1))
  ]
]

ends_if :
    (c : Codec) (files : Files) (s3_key mime_type : String)
    → IsReadable files s3_key mime_type
    → Completes (extract_text c files s3_key mime_type)
unfolding extract_text extract_pdf
ends_if c files s3_key mime_type (IsReadable.a_pdf raw pdf m got opened free) =
    rw (m, str_eq) (rw got (rw opened (rw free (_, refl))))
ends_if c files s3_key mime_type (IsReadable.a_text body plain opened whole) =
    subst Completes (sym (extract_text_plain c files s3_key mime_type body plain opened))
      (ends_stream c body whole)

-- The generator runs to its end without raising exactly when the file is readable: a PDF that was
-- downloaded, opens and needs no password, or a plain text or Markdown file whose stream opens and
-- does not break. A page whose text or whose scan fails never makes it raise.
extract_text_iff :
    (c : Codec) (files : Files) (s3_key mime_type : String)
    → Completes (extract_text c files s3_key mime_type) ↔ IsReadable files s3_key mime_type
extract_text_iff c files s3_key mime_type =
    (ends_only_if c files s3_key mime_type, ends_if c files s3_key mime_type)
