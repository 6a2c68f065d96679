-- ===== src/Tests/Files.antt =====
-- Files that are read, cleaned, cut and stored, two jobs at once, and the log and the report
-- (backend/app/services/extraction.py, backend/app/workers/ingest.py, backend/app/utils/logging.py,
-- backend/scripts/daily_quota_report.py).
use pdftalk.Prelude.{
  ◌<◌, ◌+◌, String, some, if◌then◌else◌, length, ℕ, ◌≡◌, refl, sym, true, false, ◌||◌, none, List,
  [], ◌∷◌, ◌++◌, map, arith, ltb, ◌==◌, All,
}
use pdftalk.Document.{State, is_document, ready, Document, pending}
use pdftalk.Ingest.{Pipeline, run_ingest, run, total_tokens, prepare, begin, go_on}
use pdftalk.Prelude.Table.{find, count}
use pdftalk.Extraction.{
  extract_text, read_to_end, Codec, Files, clean, extract_plaintext_stream, join_texts,
}
use pdftalk.Prelude.Action.{ok, ◌>>=◌}
use pdftalk.Extraction.Clean.{IsClean, ink, clean-IsClean}
use pdftalk.Extraction.Stream.{IsIncremental, IsLarge, cleaned_last, extract_plaintext_stream_whole}
use pdftalk.Ingest.File.{run_ingest_plaintext, window_rows}
use pdftalk.Tests.Documents.{paper, calm, with_library}
use pdftalk.Tests.Jobs.{by_character, short_text}
use mathlib.Core.List.{append_assoc}
use pdftalk.Chunking.{chunk_encoded, chunk_text, ChunkData}
use pdftalk.Document.Service.{lift}
use pdftalk.Ingest.Overlap.{overlapped, begun, overlapped_jobs_double}
use pdftalk.Ingest.Prepare.{is_chunk_of}
use pdftalk.Logging.{Structlog, get_key, shared_processors, is_scrubbed}
use pdftalk.Logging.Scrubbed.{get_key-shared_processors}
use pdftalk.Reports.{Report, key_daily_quota, token_quota}
use pdftalk.Chunking.Coverage.{recombine, IsWindow}
use pdftalk.Chunking.Windows.{tokens}
use pdftalk.Document

-- One byte for each character.
abbrev latin : Codec
latin = record {
  nfc = λ t. t;
  is_control = λ ch. ltb ch 32;
  is_space = λ ch. ch == 32 || ch == 10 || ch == 9;
  decode = λ held chunk. (held ++ chunk, []);
  flush = λ held. held;
}

pub latin_cuts : IsIncremental latin (λ bytes. bytes)
latin_cuts = record {
  cut = λ held chunk rest. sym (append_assoc held chunk rest);
  end_of_input = λ held. refl;
}

-- A bell, "a", four newlines and "b", in two chunks.
abbrev note_bytes : List (List ℕ)
note_bytes = (7 ∷ 97 ∷ 10 ∷ 10 ∷ []) ∷ (10 ∷ 10 ∷ 98 ∷ []) ∷ []

cleaned : clean latin true (join_texts note_bytes) ≡ 97 ∷ 10 ∷ 10 ∷ 98 ∷ []
unfolding clean
cleaned = refl

clean-IsClean_example :
    IsClean latin (clean latin true (join_texts note_bytes))
    × (ink latin (clean latin true (join_texts note_bytes)) ≡ 97 ∷ 98 ∷ [])
clean-IsClean_example = clean-IsClean latin true (join_texts note_bytes)

extract_plaintext_stream_whole_example :
    (raws : List (List ℕ)) × (last : List ℕ) × (join_texts raws ++ last ≡ join_texts note_bytes)
    × All IsLarge raws
    × (extract_plaintext_stream latin (record { chunks = note_bytes; breaks = false })
        ≡ (map (clean latin false) raws ++ cleaned_last latin last, none))
extract_plaintext_stream_whole_example =
    extract_plaintext_stream_whole latin (λ bytes. bytes) latin_cuts note_bytes

abbrev shelf : Files
shelf = record {
  download_file = λ k. ok [];
  download_file_streaming = λ k. ok (record { chunks = note_bytes; breaks = false });
  open_pdf = λ raw. none;
}

abbrev reading : Pipeline
reading = record {
  extract_text = λ k m. read_to_end (extract_text latin shelf k m);
  tokenizer = by_character;
  over_quota = λ u n. some false;
  embed_texts = λ texts. ok ((1 ∷ []) ∷ []);
}

abbrev note : Document.Document
note = record (paper pending) { mime_type = "text/plain" }

note_run : (run_ingest calm reading 1 (with_library note)).0 ≡ ok tt
unfolding run_ingest run total_tokens chunk_text chunk_encoded lift extract_text
    extract_plaintext_stream clean
note_run = refl

run_ingest_plaintext_example :
    let out = (run_ingest calm reading 1 (with_library note)).1 in
    (raws : List (List ℕ)) × (last : List ℕ) × (ws : List (List ℕ)) × (embeddings : List (List ℕ))
    × (false ≡ false)
    × (join_texts raws ++ last ≡ join_texts note_bytes)
    × (recombine ws ≡ tokens by_character (map (clean latin false) raws ++ cleaned_last latin last))
    × All IsWindow ws
    × (0 < length ws)
    × (reading.embed_texts (map by_character.decode ws) ≡ ok embeddings)
    × (length embeddings ≡ length ws)
    × (out.saved.chunks ≡ [] ++ window_rows note by_character 0 ws embeddings)
run_ingest_plaintext_example =
    run_ingest_plaintext calm reading latin shelf (λ bytes. bytes) note (with_library note)
      (record { chunks = note_bytes; breaks = false }) latin_cuts (λ k m. refl) refl refl refl refl
      (λ p. ground arith) note_run

-- The second job begins while the first one is at work, and each stores the one chunk of "hi".
abbrev hi : List ChunkData
hi = record { chunk_index = 0; text = 104 ∷ 105 ∷ []; token_count = 2 } ∷ []

hi_prepared :
    (doc : Document.Document) (s : State) → (prepare short_text doc s).0 ≡ ok (hi, (1 ∷ []) ∷ [])
unfolding prepare total_tokens chunk_text chunk_encoded lift
hi_prepared doc s = refl

overlapped_jobs_double_example :
    let doc = paper pending in
    let second = begun calm doc in
    let out = overlapped calm short_text short_text 1 (with_library doc) in
    ((p : Pipeline) (t : State) → run calm p 1 t ≡ (begin calm 1 >>= go_on calm p) t)
    × ((begin calm 1 (begin calm 1 (with_library doc)).1).0 ≡ ok (some second))
    × (out.0 ≡ ok tt)
    × (find (is_document 1) out.1.saved.documents
        ≡ some (record doc { status = ready; chunk_count = some 1; updated_at = 9000 }))
    × (count (is_chunk_of 1) out.1.saved.chunks ≡ 1 + 1)
overlapped_jobs_double_example =
    overlapped_jobs_double calm short_text short_text (paper pending) (with_library (paper pending))
      hi hi ((1 ∷ []) ∷ []) ((1 ∷ []) ∷ []) refl refl (λ p. ground arith)
      (hi_prepared (paper pending)) (hi_prepared (begun calm (paper pending)))

-- An entry with an email of its own and a record that has a token, which `first` leaves alone.
abbrev lines : Structlog String
lines = record {
  redacted = "[REDACTED]";
  lower = λ k. k;
  fields = λ r. ("token", "abc") ∷ ("path", "/query") ∷ ("_private", "x") ∷ [];
  first = λ e. e;
}

get_key-shared_processors_example :
    get_key "token" (shared_processors lines (("email", "a@b") ∷ ("record", "r") ∷ []))
    ≡ some "[REDACTED]"
unfolding is_scrubbed
get_key-shared_processors_example =
    get_key-shared_processors lines "token" (("email", "a@b") ∷ ("record", "r") ∷ [])

-- Two users, 97 and 98, who have each used 85 of 100 tokens.
abbrev morning : Report
morning = record {
  max_daily_tokens = 100;
  max_daily_queries = 10;
  scan_token_keys = map (key_daily_quota token_quota (50 ∷ [])) ((97 ∷ []) ∷ (98 ∷ []) ∷ []);
  scan_query_keys = [];
  get = λ key. if length key == 16 then some 85 else none;
  has_webhook = true;
  slack_accepts = λ a. true;
}
