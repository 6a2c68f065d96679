-- ===== src/Lifecycle/Requests.antt =====
-- The uploads and deletions of backend/app/routers/documents.py keep every document explained.
use pdftalk.Prelude.{Bool-cases, List, length, ℕ, String, inl, inr}
use pdftalk.Document.{
  Service, commit, uploads, pending_upload, pending, Error, Env, Document, http, client_error,
}
use pdftalk.Prelude.Action.{pure, raise, ◌>>=◌, ◌>>◌, catch}
use pdftalk.Document.Flows.{
  tolerate_missing, delete_document, initiate_upload, ignored, upload_document, delete_rows,
  ignore_client_error, is_missing_code, presigned_url_expires_in,
}
use pdftalk.Document.Endpoints.{
  enqueue_ingest, upload_document_endpoint, delete_document_endpoint, initiate_upload_endpoint,
  delete_errors, initiate_errors, Answer,
}
use pdftalk.Lifecycle.Keeps.{catch-Keeps, commit-Keeps, Keeps, bind_Keeps, if_Keeps}
use pdftalk.Document.Service.{
  or_default, new_document, get_document_for_user, check_quota, call_s3, answer, delete_object,
  add_document, lift,
}
use pdftalk.FileValidation.{validate_upload, validate_upload_metadata}
use pdftalk.Lifecycle.Writes.{
  lift-Keeps, get_document_for_user-Keeps, check_quota-Keeps, call_s3-Keeps, answer-Keeps,
  delete_object-Keeps, add_document-Keeps, delete_rows-Keeps, pending-Sets,
  new_document-IsExplained, pending_upload-Sets,
}
use pdftalk.Document

pub upload_document-Keeps :
    (env : Env) (from_buffer : List ℕ → String) (n u : ℕ) (filename mime : String)
    (reads : List (List ℕ))
    → Keeps (upload_document env from_buffer n u filename mime reads)
unfolding upload_document
upload_document-Keeps env from_buffer n u filename mime reads =
    let name = or_default filename "upload" in
    let content = or_default mime "application/octet-stream" in
    let doc = λ (raw : List ℕ). new_document env u name content (length raw) pending in
    let undo : Document → Document.Error → Service (Unit {0}) =
      λ d e. ignored (delete_object env d.s3_key) >> raise e in
    let store : Document → Service (Unit {0}) = λ d. catch (commit env) (undo d) in
    let keep : Document → Unit {0} → Service Document = λ d v. store d >> pure d in
    let insert : Document → Unit {0} → Service Document = λ d v. add_document d >>= keep d in
    let send : Document → Unit {0} → Service Document =
      λ d v. answer (env.upload_fails d.s3_key) >>= insert d in
    let go : List ℕ → Service Document =
      λ raw. call_s3 (uploads (doc raw).s3_key) >>= send (doc raw) in
    bind_Keeps (check_quota n u) (λ v. lift (validate_upload from_buffer reads) >>= go)
      (check_quota-Keeps n u)
      (λ v.
        bind_Keeps (lift (validate_upload from_buffer reads)) go
          (lift-Keeps (validate_upload from_buffer reads))
          (λ raw.
            bind_Keeps (call_s3 (uploads (doc raw).s3_key)) (send (doc raw))
              (call_s3-Keeps (uploads (doc raw).s3_key))
              (λ v.
                bind_Keeps (answer (env.upload_fails (doc raw).s3_key)) (insert (doc raw))
                  (answer-Keeps (env.upload_fails (doc raw).s3_key))
                  (λ v.
                    bind_Keeps (add_document (doc raw)) (keep (doc raw))
                      (add_document-Keeps (doc raw) (
                        new_document-IsExplained env u name content (length raw) pending
                          pending-Sets))
                      (λ v.
                        bind_Keeps (store (doc raw)) (λ v. pure (doc raw))
                          (catch-Keeps (commit env) (undo (doc raw)) (commit-Keeps env) (λ e.
                            bind_Keeps (ignored (delete_object env (doc raw).s3_key)) (λ v. raise e)
                              (catch-Keeps (delete_object env (doc raw).s3_key) (λ e'. pure tt)
                                (delete_object-Keeps env (doc raw).s3_key) (λ e' s h. h))
                              (λ v s h. h)))
                          (λ v s h. h))))))

tolerate_missing-Keeps : (e : Document.Error) → Keeps (tolerate_missing e)
tolerate_missing-Keeps (client_error code) =
    if_Keeps (is_missing_code code) (pure tt) (raise (client_error code)) (λ s h. h) (λ s h. h)
tolerate_missing-Keeps _ = λ s h. h

pub ignore_client_error-Keeps : (e : Document.Error) → Keeps (ignore_client_error e)
ignore_client_error-Keeps (client_error code) s h = h
ignore_client_error-Keeps _ s h = h

delete_document-Keeps : (env : Env) (i u : ℕ) → Keeps (delete_document env i u)
unfolding delete_document
delete_document-Keeps env i u =
    let gone : Document → Unit {0} → Service (Unit {0}) = λ d v. delete_rows d.id >> commit env in
    let go : Document → Service (Unit {0}) =
      λ d. catch (delete_object env d.s3_key) tolerate_missing >>= gone d in
    bind_Keeps (get_document_for_user i u) go (get_document_for_user-Keeps i u) (λ d.
      bind_Keeps (catch (delete_object env d.s3_key) tolerate_missing) (gone d)
        (catch-Keeps (delete_object env d.s3_key) tolerate_missing
          (delete_object-Keeps env d.s3_key) tolerate_missing-Keeps)
        (λ v.
          bind_Keeps (delete_rows d.id) (λ w. commit env) (delete_rows-Keeps d.id)
            (λ w. commit-Keeps env)))

pub enqueue_ingest-Keeps : (env : Env) (i : ℕ) → Keeps (enqueue_ingest env i)
unfolding enqueue_ingest
enqueue_ingest-Keeps env i s h = elim (Bool-cases env.enqueues) [
  | inl up ↦ rw (up, enqueue_ingest) h
  | inr down ↦ rw (down, enqueue_ingest) h
]

pub upload_document_endpoint-Keeps :
    (env : Env) (from_buffer : List ℕ → String) (n u : ℕ) (filename mime : String)
    (reads : List (List ℕ))
    → Keeps (upload_document_endpoint env from_buffer n u filename mime reads)
unfolding upload_document_endpoint
upload_document_endpoint-Keeps env from_buffer n u filename mime reads =
    let undo : Document → Document.Error → Service (Unit {0}) =
      λ d e. delete_document env d.id u >> raise (http 503) in
    let answer_ : Document → Unit {0} → Service Answer = λ d v. pure (d.id, d.status) in
    let go : Document → Service Answer =
      λ d. catch (enqueue_ingest env d.id) (undo d) >>= answer_ d in
    bind_Keeps (upload_document env from_buffer n u filename mime reads) go
      (upload_document-Keeps env from_buffer n u filename mime reads)
      (λ d.
        bind_Keeps (catch (enqueue_ingest env d.id) (undo d)) (answer_ d)
          (catch-Keeps (enqueue_ingest env d.id) (undo d) (enqueue_ingest-Keeps env d.id) (λ e.
            bind_Keeps (delete_document env d.id u) (λ v. raise (http 503))
              (delete_document-Keeps env d.id u) (λ v s h. h)))
          (λ v s h. h))

delete_errors-Keeps : (e : Document.Error) → Keeps (delete_errors e)
delete_errors-Keeps (client_error code) s h = h
delete_errors-Keeps _ s h = h

pub delete_document_endpoint-Keeps :
    (env : Env) (i u : ℕ) → Keeps (delete_document_endpoint env i u)
unfolding delete_document_endpoint
delete_document_endpoint-Keeps env i u =
    catch-Keeps (delete_document env i u) delete_errors (delete_document-Keeps env i u)
      delete_errors-Keeps

initiate_errors-Keeps : (e : Document.Error) → Keeps (initiate_errors e)
initiate_errors-Keeps (client_error code) s h = h
initiate_errors-Keeps _ s h = h

initiate_upload-Keeps :
    (env : Env) (n u : ℕ) (filename mime : String) (size : ℕ)
    → Keeps (initiate_upload env n u filename mime size)
unfolding initiate_upload
initiate_upload-Keeps env n u filename mime size =
    let d = new_document env u filename mime size pending_upload in
    let check = lift (validate_upload_metadata filename mime size) in
    let link : Service (Document × String) =
      pure (d, env.upload_url d.s3_key mime presigned_url_expires_in) in
    let store : Service (Document × String) = commit env >> link in
    let insert : Service (Document × String) = add_document d >> store in
    bind_Keeps (check_quota n u) (λ v. check >> insert) (check_quota-Keeps n u)
      (λ v.
        bind_Keeps check (λ w. insert) (lift-Keeps (validate_upload_metadata filename mime size))
          (λ w.
            bind_Keeps (add_document d) (λ x. store)
              (add_document-Keeps d (
                new_document-IsExplained env u filename mime size pending_upload
                  pending_upload-Sets))
              (λ x. bind_Keeps (commit env) (λ y. link) (commit-Keeps env) (λ y s h. h))))

pub initiate_upload_endpoint-Keeps :
    (env : Env) (n u : ℕ) (filename mime : String) (size : ℕ)
    → Keeps (initiate_upload_endpoint env n u filename mime size)
unfolding initiate_upload_endpoint
initiate_upload_endpoint-Keeps env n u filename mime size =
    catch-Keeps (initiate_upload env n u filename mime size) initiate_errors
      (initiate_upload-Keeps env n u filename mime size) initiate_errors-Keeps
