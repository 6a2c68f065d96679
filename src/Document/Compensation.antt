-- ===== src/Document/Compensation.antt =====
-- What the direct upload undoes when the queue refuses its job (backend/app/routers/documents.py).
use pdftalk.Document.{
  Error, queue_unavailable, Service, is_document, http, deletes, Document, Env, pending, uploads,
  State,
}
use pdftalk.Prelude.Action.{bind_err, catch_err, pure, raise, ◌>>◌, catch, bind_ok, err, ◌>>=◌, ok}
use pdftalk.Document.Flows.{delete_document, upload_document}
use pdftalk.Document.Endpoints.{Answer, enqueue_ingest, upload_document_endpoint}
use pdftalk.Prelude.{
  ap, ◌∙◌, some, arith, ==_refl, String, ◌≡◌, refl, true, false, none, List, [], ◌∷◌, ◌++◌, leb,
  length, ℕ,
}
use pdftalk.Prelude.Table.{find, delete}
use pdftalk.Document.Service.{
  owned_by, active_count, check_quota, answer, add_document, new_document, lift, or_default,
}
use pdftalk.Document.Deletion.{deleted, IsReleased, delete_lem}
use pdftalk.FileValidation.{validate_upload}

-- The row that an upload adds.
abbrev pub uploaded : Env → ℕ → String → String → List ℕ → Document
uploaded env u filename content_type raw =
    new_document env u (or_default filename "upload")
      (or_default content_type "application/octet-stream") (length raw) pending

abbrev uploaded_to : Document → State → State
uploaded_to d s =
    let db = record s.live { documents = s.live.documents ++ d ∷ [] } in
    record s { saved = db; live = db; s3_calls = s.s3_calls ++ uploads d.s3_key ∷ [] }

-- A row with a fresh key, found by its owner and taken away again.
find-added :
    (u : ℕ) (xs : List Document) (d : Document)
    → find (is_document d.id) xs ≡ none
    → d.user_id ≡ u
    → find (owned_by d.id u) (xs ++ d ∷ []) ≡ some d
find-added u [] d fresh owner = ground (arith, ==_refl d.id, ==_refl u)
find-added u (x ∷ xs) d fresh owner = ground (arith, find-added u xs d)

delete-added :
    (xs : List Document) (d : Document)
    → find (is_document d.id) xs ≡ none
    → delete (is_document d.id) (xs ++ d ∷ []) ≡ xs
delete-added [] d fresh = ground (arith, ==_refl d.id)
delete-added (x ∷ xs) d fresh = ground (arith, delete-added xs d)

-- The endpoint after the upload.
abbrev after_upload : Env → ℕ → Document → Service Answer
after_upload env u d = do
  catch (enqueue_ingest env d.id) (λ e. do delete_document env d.id u; raise (http 503))
  pure (d.id, d.status)

enqueue_refused :
    (env : Env) (i : ℕ) (s : State)
    → env.enqueues ≡ false
    → enqueue_ingest env i s ≡ (err queue_unavailable, s)
unfolding enqueue_ingest
enqueue_refused env i s refused = ground arith

-- The handler of a refused job deletes the document and answers 503.
taken_back :
    (env : Env) (u : ℕ) (d : Document) (t t' : State)
    → env.enqueues ≡ false
    → delete_document env d.id u t ≡ (ok tt, t')
    → after_upload env u d t ≡ (err (http 503), t')
taken_back env u d t t' refused gone =
    let undo : Error → Service (Unit {0}) = λ e. delete_document env d.id u >> raise (http 503) in
    bind_err (catch (enqueue_ingest env d.id) undo) (λ _. pure (d.id, d.status)) t t' (http 503)
      (catch_err (enqueue_ingest env d.id) undo t t queue_unavailable
          (enqueue_refused env d.id t refused)
        ∙ bind_ok (delete_document env d.id u) (λ _. raise (http 503)) t t' tt gone)

module _ (env : Env) (from_buffer : List ℕ → String) (max_docs u : ℕ)
    (filename content_type : String) (reads : List (List ℕ)) (s : State) where
  upload_made :
      (raw : List ℕ)
      → leb max_docs (active_count u s.live) ≡ false
      → validate_upload from_buffer reads ≡ ok raw
      → env.upload_fails (uploaded env u filename content_type raw).s3_key ≡ none
      → env.commits ≡ true
      → upload_document env from_buffer max_docs u filename content_type reads s ≡ (
        ok (uploaded env u filename content_type raw),
        uploaded_to (uploaded env u filename content_type raw) s,
      )
  unfolding upload_document check_quota lift add_document
  upload_made raw room valid stored commits =
      rw (room, ◌>>=◌) (rw (valid, ◌>>=◌) (rw (stored, answer) (rw commits refl)))

  -- When the queue refuses the job of a direct upload that passed its checks, was stored and
  -- committed under a fresh identifier, and whose object the store lets go of, the endpoint answers 503 and takes the
  -- upload back: the documents table is what it was, and the object's deletion is
  -- requested.
  pub upload_document_endpoint_unqueued :
      (raw : List ℕ)
      → leb max_docs (active_count u s.live) ≡ false
      → validate_upload from_buffer reads ≡ ok raw
      → env.upload_fails (uploaded env u filename content_type raw).s3_key ≡ none
      → IsReleased (env.delete_fails (uploaded env u filename content_type raw).s3_key)
      → find (is_document env.uuid4) s.live.documents ≡ none
      → env.commits ≡ true
      → env.enqueues ≡ false
      → let key = (uploaded env u filename content_type raw).s3_key in
        let (r, s') =
          upload_document_endpoint env from_buffer max_docs u filename content_type reads s in
        (r ≡ err (http 503))
        × (s'.saved.documents ≡ s.live.documents)
        × (s'.queue ≡ s.queue)
        × (s'.s3_calls ≡ (s.s3_calls ++ uploads key ∷ []) ++ deletes key ∷ [])
  unfolding upload_document_endpoint
  upload_document_endpoint_unqueued raw room valid stored released fresh commits refused =
      let d = uploaded env u filename content_type raw in
      let t = uploaded_to d s in
      let done : upload_document_endpoint env from_buffer max_docs u filename content_type reads s
          ≡ (err (http 503), deleted d.id d.s3_key t) =
        bind_ok (upload_document env from_buffer max_docs u filename content_type reads)
          (after_upload env u) s t d (upload_made raw room valid stored commits)
        ∙ taken_back env u d t (deleted d.id d.s3_key t) refused (
            delete_lem env d.id u t d (find-added u s.live.documents d fresh refl) released
              commits) in
      (
        ap (λ p. p.0) done,
        ap (λ p. p.1.saved.documents) done ∙ delete-added s.live.documents d fresh,
        ap (λ p. p.1.queue) done,
        ap (λ p. p.1.s3_calls) done,
      )
