-- ===== src/Ingest/File.antt =====
-- From the bytes of a plain text file to the chunk rows: the extraction, the chunker and the job
-- together (backend/app/services/extraction.py, chunking.py, backend/app/workers/ingest.py).
use pdftalk.Chunking.{Tokenizer, ChunkData, chunk_text, encodes_all}
use pdftalk.Document.{Chunk, Document, Env, is_document, ready, State}
use pdftalk.Prelude.{
  [], ◌∷◌, none, ◌+◌, ◌<◌, arith, refl, length, if◌then◌else◌, Bool-cases, ℕ, String, ◌≡◌, sym, ap,
  ◌∙◌, ◌≢◌, inl, inr, true, false, some, List, ◌++◌, map, All,
}
use pdftalk.Ingest.{Pipeline, run_ingest, chunk_rows}
use pdftalk.Extraction.{
  extract_plaintext_stream, Codec, Files, Body, clean, read_to_end, extract_text, is_plaintext,
  join_texts,
}
use pdftalk.Prelude.Action.{ok}
use pdftalk.Prelude.Table.{find}
use pdftalk.Extraction.Stream.{IsIncremental, cleaned_last, extract_plaintext_stream_whole}
use pdftalk.Extraction.Outcome.{extract_text_plain, stream_ends}
use pdftalk.Chunking.Coverage.{chunk_text_covers, recombine, IsWindow}
use pdftalk.Chunking.Windows.{label, length-label, tokens}
use pdftalk.Ingest.Outcome.{run_ingest_outcome}
use pdftalk.Ingest.Steps.{kept_chunks}
use pdftalk.Document

-- The pipeline's extraction is that of the program.
abbrev pub Extracts : Pipeline → Codec → Files → Type 0
Extracts pipe c files =
    (s3_key mime_type : String)
    → pipe.extract_text s3_key mime_type ≡ read_to_end (extract_text c files s3_key mime_type)

-- The rows of windows of tokens, numbered from `n`, each with its vector.
abbrev pub window_rows :
    Document.Document → Tokenizer → ℕ → List (List ℕ) → List (List ℕ) → List Chunk
window_rows doc tok n [] es = []
window_rows doc tok n (w ∷ ws) [] = []
window_rows doc tok n (w ∷ ws) (e ∷ es) =
    record {
      document_id = doc.id;
      user_id = doc.user_id;
      chunk_index = n;
      text = tok.decode w;
      token_count = length w;
      embedding = e;
    }
    ∷ window_rows doc tok (n + 1) ws es

chunk_rows-label :
    (doc : Document.Document) (tok : Tokenizer) (n : ℕ) (ws es : List (List ℕ))
    → chunk_rows doc (label tok n ws) es ≡ window_rows doc tok n ws es
chunk_rows-label doc tok n [] es = refl
chunk_rows-label doc tok n (w ∷ ws) [] = refl
chunk_rows-label doc tok n (w ∷ ws) (e ∷ es) =
    ground (arith, chunk_rows-label doc tok (n + 1) ws es)

texts-label :
    (tok : Tokenizer) (n : ℕ) (ws : List (List ℕ))
    → map (λ c. c.text) (label tok n ws) ≡ map tok.decode ws
texts-label tok n [] = refl
texts-label tok n (w ∷ ws) = ap (◌∷◌ (tok.decode w)) (texts-label tok (n + 1) ws)

-- What a run that was not refused made of the windows.
made_of :
    (tok : Tokenizer) (blocks ws : List (List ℕ)) (chunks : List ChunkData)
    → chunk_text tok blocks ≡ some chunks
    → chunk_text tok blocks ≡ (if encodes_all tok blocks then some (label tok 0 ws) else none)
    → chunks ≡ label tok 0 ws
made_of tok blocks ws chunks made e = elim (Bool-cases (encodes_all tok blocks)) [
  | inl encoded ↦
      let same : some chunks ≡ some (label tok 0 ws) = sym made ∙ e ∙ rw encoded refl in cc same
  | inr refused ↦ let same : some chunks ≡ none = sym made ∙ e ∙ rw refused refl in cc
]

-- A run of the job that returns, for a plain text document that was not READY, with the database
-- accepting its commits and the object store opening the stream, has read the stream to its end.
-- The decoded file, cut into blocks that are cleaned one by one, is what the saved chunks hold: they
-- are the texts of windows of 1 to 512 tokens, at least one, which with the overlap counted once are
-- the tokens of the blocks. Their rows are numbered from 0, with the owner and the document, and
-- each has the vector that the embedding service gave for its text.
pub run_ingest_plaintext :
    (env : Env) (pipe : Pipeline) (c : Codec) (files : Files) (utf8 : List ℕ → List ℕ)
    (doc : Document.Document) (s : State) (body : Body)
    → IsIncremental c utf8
    → Extracts pipe c files
    → is_plaintext doc.mime_type ≡ true
    → files.download_file_streaming doc.s3_key ≡ ok body
    → env.commits ≡ true
    → find (is_document doc.id) s.live.documents ≡ some doc
    → doc.status ≢ ready
    → (run_ingest env pipe doc.id s).0 ≡ ok tt
    → (raws : List (List ℕ)) × (last : List ℕ) × (ws : List (List ℕ)) × (embeddings : List (List ℕ))
      × (body.breaks ≡ false)
      × (join_texts raws ++ last ≡ utf8 (join_texts body.chunks))
      × (recombine ws ≡ tokens pipe.tokenizer (map (clean c false) raws ++ cleaned_last c last))
      × All IsWindow ws
      × (0 < length ws)
      × (pipe.embed_texts (map pipe.tokenizer.decode ws) ≡ ok embeddings)
      × (length embeddings ≡ length ws)
      × ((run_ingest env pipe doc.id s).1.saved.chunks
          ≡ kept_chunks doc s.live.chunks ++ window_rows doc pipe.tokenizer 0 ws embeddings)
run_ingest_plaintext env pipe c files utf8 doc s body laws extracts plain opened commits found
      unready done =
    elim (run_ingest_outcome env pipe doc s commits found unready) [
      | inr (e, raised, r1, r2, r3) ↦ cc
      | inl (chunks, embeddings, (blocks, read, made, m0, m1, m2, m3, m4), ran, row, saved, logs) ↦
          let streamed : read_to_end (extract_plaintext_stream c body) ≡ ok blocks =
            ap read_to_end
              (sym (extract_text_plain c files doc.s3_key doc.mime_type body plain opened))
            ∙ (sym (extracts doc.s3_key doc.mime_type) ∙ read) in
          let whole = stream_ends c body (blocks, streamed) in
          let (raws, last, joined, large, stream) =
            extract_plaintext_stream_whole c utf8 laws body.chunks in
          let (ws, e, covered, windows) = chunk_text_covers pipe.tokenizer blocks in
          let same : body ≡ record { chunks = body.chunks; breaks = false } =
            λ i. record { chunks = body.chunks; breaks = whole i } in
          let all : ok blocks ≡ ok (map (clean c false) raws ++ cleaned_last c last) =
            sym streamed ∙ ap read_to_end (ap (extract_plaintext_stream c) same ∙ stream) in
          let blocks_are : blocks ≡ map (clean c false) raws ++ cleaned_last c last = cc all in
          let labelled = made_of pipe.tokenizer blocks ws chunks made e in
          let as_many : length chunks ≡ length ws =
            ap length labelled ∙ length-label pipe.tokenizer 0 ws in
          (
            raws,
            last,
            ws,
            embeddings,
            whole,
            joined,
            covered ∙ ap (tokens pipe.tokenizer) blocks_are,
            windows,
            omega (arith, as_many, m0),
            ap pipe.embed_texts (
                  sym (texts-label pipe.tokenizer 0 ws)
                  ∙ sym (ap (map (λ (x : ChunkData). x.text)) labelled))
                ∙ m3,
            m4 ∙ as_many,
            saved
                ∙ ap (λ cs. kept_chunks doc s.live.chunks ++ chunk_rows doc cs embeddings) labelled
                ∙ ap (λ rows. kept_chunks doc s.live.chunks ++ rows)
                    (chunk_rows-label doc pipe.tokenizer 0 ws embeddings),
          )
    ]
