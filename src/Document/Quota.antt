-- ===== src/Document/Quota.antt =====
-- The limit on a user's documents (backend/app/services/document_service.py): the guard of both
-- upload flows, and the retry, which has none.
use pdftalk.Prelude.Action.{◌>>=◌, Result-cases, ok, err}
use pdftalk.Prelude.{
  refl, sym, ◌∙◌, some, ap, inl, inr, true, false, leb, Bool-cases, ◌+◌, ◌≤◌, String, ◌≡◌, none,
  List, [], ◌∷◌, ◌++◌, arith, ==_refl, ℕ,
}
use pdftalk.Document.{
  is_document, processing, Document, Env, pending_upload, failed, quota_exceeded, State,
}
use pdftalk.Prelude.Table.{find, update, count, count-append}
use pdftalk.Document.Service.{
  owned_by, get_document_for_user, transition_status, is_counted, count_user_documents,
  active_count, add_document, new_document, lift, check_quota,
}
use pdftalk.Document.Endpoints.{enqueue_ingest, get_document_status, retry_document_endpoint}
use pdftalk.Document.Keys.{find-owned_by, count-update, IsKeyed}
use pdftalk.FileValidation.{validate_upload_metadata}
use mathlib.Core.Path.{subst}
use pdftalk.Document.Flows.{presigned_url_expires_in, initiate_upload}

-- A user at the limit starts no upload: the request is refused and nothing changes.
pub initiate_upload_at_limit :
    (env : Env) (max_docs u : ℕ) (name mime : String) (size : ℕ) (s : State)
    → max_docs ≤ active_count u s.live
    → initiate_upload env max_docs u name mime size s ≡ (err quota_exceeded, s)
unfolding initiate_upload check_quota
initiate_upload_at_limit env max_docs u name mime size s full = ground arith

active_count-append :
    (u : ℕ) (xs : List Document) (d : Document)
    → d.user_id ≡ u
    → d.status ≡ pending_upload
    → count (is_counted u none (failed ∷ [])) (xs ++ d ∷ [])
      ≡ count (is_counted u none (failed ∷ [])) xs + 1
active_count-append u xs d owner waiting =
    ground (arith, count-append (is_counted u none (failed ∷ [])) xs (d ∷ []), ==_refl u)

-- What a started upload leaves.
abbrev with_document : Document → State → State
with_document d s =
    let db = record s.live { documents = s.live.documents ++ d ∷ [] } in
    record s { saved = db; live = db }

initiate_upload_made :
    (env : Env) (max_docs u : ℕ) (name mime : String) (size : ℕ) (s : State)
    → leb max_docs (active_count u s.live) ≡ false
    → (a : Unit {0}) → validate_upload_metadata name mime size ≡ ok a
    → env.commits ≡ true
    → let d = new_document env u name mime size pending_upload in
      initiate_upload env max_docs u name mime size s
      ≡ (ok (d, env.upload_url d.s3_key mime presigned_url_expires_in), with_document d s)
unfolding initiate_upload check_quota lift add_document
initiate_upload_made env max_docs u name mime size s room a valid commits = ground arith

-- An upload that is started has passed the limit and the metadata checks: it adds one row to
-- what is saved, waiting for the object, and the user's count stays within the limit.
pub initiate_upload_counts :
    (env : Env) (max_docs u : ℕ) (name mime : String) (size : ℕ) (s : State) (d : Document)
    (url : String)
    → (initiate_upload env max_docs u name mime size s).0 ≡ ok (d, url)
    → let saved = (initiate_upload env max_docs u name mime size s).1.saved in
      (d ≡ new_document env u name mime size pending_upload)
      × (saved.documents ≡ s.live.documents ++ d ∷ [])
      × (active_count u saved ≡ active_count u s.live + 1)
      × (active_count u saved ≤ max_docs)
unfolding initiate_upload check_quota lift count_user_documents
initiate_upload_counts env max_docs u name mime size s d url h =
    elim (Bool-cases (leb max_docs (active_count u s.live))) [
      | inl full ↦ absurd (ground arith)
      | inr room ↦ elim (Result-cases (validate_upload_metadata name mime size)) [
        | inl (e, invalid) ↦ absurd (ground arith)
        | inr (a, valid) ↦ elim (Bool-cases env.commits) [
          | inr refused ↦ absurd (ground arith)
          | inl commits ↦
              let made =
                initiate_upload_made env max_docs u name mime size s room a valid commits in
              let row : d ≡ new_document env u name mime size pending_upload =
                cc (ap (λ p. p.0) made) in
              let counted : active_count u (initiate_upload env max_docs u name mime size s).1.saved
                  ≡ active_count u s.live + 1 =
                ap (λ p. active_count u p.1.saved) made
                ∙ active_count-append u s.live.documents
                    (new_document env u name mime size pending_upload) refl refl in
              (
                row,
                ap (λ p. p.1.saved.documents) made ∙ ap (λ x. s.live.documents ++ x ∷ []) (sym row),
                counted,
                ground arith,
              )
        ]
      ]
    ]

-- The row that a retry leaves.
abbrev retried : Env → Document → Document
retried env d = record d { status = processing; updated_at = env.now }

get_document_status_found :
    (i u : ℕ) (s : State) (d : Document)
    → find (owned_by i u) s.live.documents ≡ some d
    → get_document_status i u s ≡ (ok d, s)
unfolding get_document_status get_document_for_user
get_document_status_found i u s d found = ground arith

retry_lem :
    (env : Env) (i u : ℕ) (s : State) (d : Document)
    → find (owned_by i u) s.live.documents ≡ some d
    → d.status ≡ failed
    → env.commits ≡ true
    → env.enqueues ≡ true
    → let db = record s.live {
      documents = update (is_document d.id) (retried env) s.live.documents;
    } in
      retry_document_endpoint env i u s
      ≡ (ok (d.id, processing), record s { saved = db; live = db; queue = s.queue ++ d.id ∷ [] })
unfolding retry_document_endpoint transition_status enqueue_ingest
retry_lem env i u s d found broken commits enqueues =
    let fetched = get_document_status_found i u s d found in
    rw (fetched, ◌>>=◌)
      (rw broken (rw commits (rw (enqueues, enqueue_ingest) (rw (ap (λ p. p.1) fetched) refl))))

-- A retry of the caller's failed document asks for no room under the limit: with keys that are
-- unique and a commit and a queue that accept, it succeeds whatever the count is, queues the job once, and the user's count grows by one.
pub retry_document_endpoint_counts :
    (env : Env) (i u : ℕ) (s : State) (d : Document)
    → IsKeyed s.live.documents
    → find (owned_by i u) s.live.documents ≡ some d
    → d.status ≡ failed
    → env.commits ≡ true
    → env.enqueues ≡ true
    → let (r, s') = retry_document_endpoint env i u s in
      (r ≡ ok (d.id, processing))
      × (s'.queue ≡ s.queue ++ d.id ∷ [])
      × (active_count u s'.saved ≡ active_count u s.live + 1)
unfolding count_user_documents
retry_document_endpoint_counts env i u s d keyed found broken commits enqueues =
    let done = retry_lem env i u s d found broken commits enqueues in
    let (here, same, owner) = find-owned_by i u s.live.documents d keyed found in
    let counted =
      count-update d.id (retried env) (is_counted u none (failed ∷ [])) s.live.documents d keyed
        (subst (λ k. find (is_document k) s.live.documents ≡ some d) (sym same) here) in
    (
      ap (λ p. p.0) done,
      ap (λ p. p.1.queue) done,
      ap (λ p. active_count u p.1.saved) done ∙ ground (arith, ==_refl u),
    )
