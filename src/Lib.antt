-- ===== src/Lib.antt =====
-- PDFTalk, a service that answers questions on uploaded PDF files. The program's core is a FastAPI
-- backend (backend/app): routers that call services, which keep their state in PostgreSQL through
-- SQLAlchemy sessions, put files into an S3 bucket and jobs on RQ queues; workers run the jobs.
--
-- Files and what they model:
--   * Prelude and its children: Boolean tests on native numbers (Tests), lists (Lists), queries and
--     writes on tables (Table), stable sorting by a key (Sorting), character codes of literals (Text),
--     and methods that change a state and may raise (Action).
--   * Document: rows and the status machine of backend/app/models/document.py, chunk.py and
--     job_log.py, the state of a request, and the session of backend/app/db/session.py.
--     Document/Service and Document/Flows: backend/app/services/document_service.py, a definition
--     for each function under its own name. Document/Endpoints: backend/app/routers/documents.py.
--     Document/Keys, Confirm, Quota, Isolation, Deletion and Compensation hold the proofs.
--   * FileValidation (proofs in Bounds): backend/app/services/file_validation.py.
--   * Extraction (proofs in Clean, Stream and Outcome): backend/app/services/extraction.py.
--   * Chunking (proofs in Windows and Coverage): backend/app/services/chunking.py.
--   * Prompt (proofs in Context and History): backend/app/services/prompt.py.
--   * Auth: the tables of backend/app/models/user.py and auth.py. Auth/Tokens:
--     backend/app/auth/tokens.py. Auth/Verification: backend/app/services/email_verification.py and
--     password_reset.py with two handlers of backend/app/routers/auth.py. Auth/Login:
--     backend/app/services/user_service.py. Auth/Endpoints: the other handlers of
--     backend/app/routers/auth.py, and backend/app/auth/dependencies.py. Auth/Strength: the rule for new passwords.
--     Proofs in Rotation, Single, Lockout, Session and Renewal.
--   * Exceptions: backend/app/exceptions.py, the exceptions and the handlers that answer them.
--   * Chats: the rows of backend/app/models/chat.py and message.py, and the checks of
--     backend/app/services/query_validation.py. Chats/Service: backend/app/services/chats.py and
--     backend/app/routers/chats.py. Proofs in Isolation, Selection, Missing and Truncation.
--   * Retrieval (proofs in Nearest and Own): backend/app/services/retrieval.py.
--   * Embedding (proofs in Batches and Rows): backend/app/services/embedding.py and
--     chunk_service.py.
--   * Query: the types of the event stream. Query/Stream: `_sse_generator` of
--     backend/app/routers/query.py. Query/Ask: its endpoint up to the stream. Query/Answer: the
--     stream of backend/app/services/llm.py read by the generator. Query/Exchange: the whole request.
--     Proofs in Emission, Delivery, Silent, Sent, Stored, Terminal, Question and Exchange.
--   * Ingest (proofs in Prepare, Steps, Outcome, Recount, Parts and Overlap):
--     backend/app/workers/ingest.py.
--     Ingest/File joins it with Extraction and Chunking. Ingest/Failure:
--     backend/app/workers/failure_handler.py.
--   * Cleanup (proofs in Rounds and Stale): backend/app/workers/tasks.py.
--   * Lifecycle: every order of the requests on documents and the jobs. Proofs in Keeps, Writes,
--     Requests, Confirm, Jobs and Explained.
--   * OpenAi (proofs in Breaker): the circuit breaker and the guarded call of
--     backend/app/utils/openai_client.py, with a counter of backend/app/utils/redis_client.py.
--     OpenAi/Usage (proofs in Window): the daily quotas, embeddings and token streams.
--   * Orphans (proofs in Sweep): backend/scripts/cleanup_s3_orphans.py.
--   * Admin (proofs in Lifetime): the operator's session of backend/app/routers/internal.py.
--   * Config (proofs in Production): backend/app/core/config.py.
--   * Sentinel (proofs in Startup): backend/app/core/sentinel.py.
--   * Middleware (proofs in Headers): backend/app/middleware.
--   * Logging (proofs in Scrubbed): backend/app/utils/logging.py.
--   * Reports (proofs in Keys): backend/scripts/daily_quota_report.py.
--   * Tests: concrete runs.
--
-- How the parts interact: a request runs in a session (`get_db`), which commits when the handler
-- returns and rolls back when it raises. `saved` is what the database holds and `live` what the
-- session sees. The endpoints call the document service and put the ingest job of a document on the
-- queue; the job extracts, chunks and embeds the text and moves the document to READY or FAILED; the
-- cleanup job fails what hangs. A question on a chat passes the checks, is counted, searches the
-- chunks of the chat's documents, becomes a prompt and is stored; then the generator sends events
-- while the tokens come, and its `finally` block stores what was sent. A stream's client is a number:
-- the events after which it asks for another one.
--
-- What stands for the outside: the answers of the object store, the queue, the clock, the random
-- sources, the hash functions, the tokenizer, libmagic, PyMuPDF, tesseract, Unicode's tables, the UTF-8
-- decoder, structlog and the embedding service are fields of `Env`, `Pipeline`, `Tokenizer`, `Encoder`,
-- `Codec`, `Files`, `Structlog`, `Redis`, `Readers` and
-- `Surroundings` or arguments. `Pipeline` takes the extraction as an answer,
-- and Ingest/File puts the one of Extraction in its place. One request meets one
-- answer of the database to all its commits; in Auth every commit is accepted. UUIDs, hashes and times (in
-- seconds) are numbers. Distances and the components of embeddings are opaque numbers. A unique
-- column makes `scalar_one_or_none` the first match. Error texts are data, without truncation. The
-- search's HNSW index is approximate: the rows that its scan reaches are an argument. In OpenAi, and in
-- Query on top of it, Redis answers every command; the ingest job also meets a Redis that does not. In
-- Prompt the encoder takes every text, in Chunking it may refuse one. A text that the extraction
-- breaks off after a block that the tokenizer refuses fails with the extraction's error.
--
-- Bounds and fuel: the chunker's `while` loop runs on fuel of one more than the buffer's length, and
-- each round takes 448 tokens off, so the fuel never runs out before the loop ends; the coverage
-- theorem would fail otherwise. The size tolerance of 0.10 is compared as 10 * |actual - claimed| >
-- claimed, which agrees with the source's floats for sizes below 2^49; so are the report's 0.80 and
-- 1.00, as 100 * used against 80 * limit and used against limit. Batches are cut on fuel of the
-- length of the list, which is enough since each batch takes one element or more.
--
-- Not modelled: the connection pools, emails, alerts, metrics, the
-- statistics for the operator, the other scripts, and the frontend. These are I/O, libraries,
-- queries that only read or presentation. How the rate limiter counts is its package's; the
-- endpoints are modelled behind their guards.
pub mod Prelude
pub mod Document
pub mod FileValidation
pub mod Chunking
pub mod Extraction
pub mod Prompt
pub mod Retrieval
pub mod Auth
pub mod Exceptions
pub mod Chats
pub mod Orphans
pub mod Admin
pub mod Embedding
pub mod Query
pub mod Ingest
pub mod Cleanup
pub mod Lifecycle
pub mod OpenAi
pub mod Logging
pub mod Config
pub mod Sentinel
pub mod Middleware
pub mod Reports
pub mod Tests
