-- ===== src/Lifecycle/Confirm.antt =====
-- Confirming an upload and retrying a document, in backend/app/routers/documents.py, keep every
-- document explained.
use pdftalk.Prelude.{not, if◌then◌else◌, ℕ, none, some}
use pdftalk.Document.{
  wrong_state, size_mismatch, literal, described, Service, commit, same_status, pending_upload,
  pending, processing, Error, Env, Document, Message, failed, http, client_error,
}
use pdftalk.Prelude.Action.{raise_if, pure, raise, ◌>>=◌, ◌>>◌, catch}
use pdftalk.Document.Flows.{
  exceeds_tolerance, reject_size, accept_size, confirm_upload, head_object, ignore_client_error,
  is_missing_code,
}
use pdftalk.Document.Endpoints.{
  not_found_is_404, get_document_status, retry_document_endpoint, confirm_errors, enqueue_confirmed,
  confirm_upload_endpoint, enqueue_ingest, Answer,
}
use pdftalk.Lifecycle.Keeps.{catch-Keeps, commit-Keeps, Keeps, bind_Keeps, if_Keeps}
use pdftalk.Document.Service.{get_document_for_user, transition_status, delete_object}
use pdftalk.Lifecycle.Writes.{
  get_document_for_user-Keeps, delete_object-Keeps, head_object-Keeps, transition_status-Keeps,
  failed-Sets, processing-Sets, pending-Sets,
}
use pdftalk.Lifecycle.Requests.{enqueue_ingest-Keeps, ignore_client_error-Keeps}
use pdftalk.Document

confirm_errors-Keeps : (e : Document.Error) → Keeps (confirm_errors e)
confirm_errors-Keeps (client_error code) =
    if_Keeps (is_missing_code code) (raise (http 409)) (raise (http 502)) (λ s h. h) (λ s h. h)
confirm_errors-Keeps _ = λ s h. h

reject_size-Keeps : (env : Env) (d : Document) (n : ℕ) → Keeps (reject_size env d n)
unfolding reject_size
reject_size-Keeps env d n =
    let reason = described (size_mismatch n d.file_size_bytes) in
    let stop : Service Document = raise (size_mismatch n d.file_size_bytes) in
    let close : Service Document = commit env >> stop in
    let set = transition_status env d failed (some reason) none in
    bind_Keeps (catch (delete_object env d.s3_key) ignore_client_error) (λ v. set >>= λ w. close)
      (catch-Keeps (delete_object env d.s3_key) ignore_client_error
        (delete_object-Keeps env d.s3_key) ignore_client_error-Keeps)
      (λ v.
        bind_Keeps set (λ w. close)
          (transition_status-Keeps env d failed (some reason) (failed-Sets reason))
          (λ w. bind_Keeps (commit env) (λ x. stop) (commit-Keeps env) (λ x s h. h)))

accept_size-Keeps : (env : Env) (d : Document) → Keeps (accept_size env d)
unfolding accept_size
accept_size-Keeps env d =
    let close : Document → Service Document = λ d'. commit env >> pure d' in
    bind_Keeps (transition_status env d pending none none) close
      (transition_status-Keeps env d pending none pending-Sets)
      (λ d'. bind_Keeps (commit env) (λ v. pure d') (commit-Keeps env) (λ v s h. h))

confirm_upload-Keeps : (env : Env) (i u : ℕ) → Keeps (confirm_upload env i u)
unfolding confirm_upload
confirm_upload-Keeps env i u =
    let decide : Document → ℕ → Service Document = λ d n.
      if exceeds_tolerance n d.file_size_bytes then reject_size env d n else accept_size env d in
    let look : Document → Service Document = λ d. head_object env d.s3_key >>= decide d in
    let guard : Document → Service (Unit {0}) =
      λ d. raise_if (not (same_status d.status pending_upload)) (wrong_state d.status) in
    bind_Keeps (get_document_for_user i u) (λ d. guard d >> look d)
      (get_document_for_user-Keeps i u)
      (λ d.
        bind_Keeps (guard d) (λ v. look d) (λ s h. h)
          (λ v.
            bind_Keeps (head_object env d.s3_key) (decide d) (head_object-Keeps env d.s3_key) (λ n.
              if_Keeps (exceeds_tolerance n d.file_size_bytes) (reject_size env d n)
                (accept_size env d) (reject_size-Keeps env d n) (accept_size-Keeps env d))))

-- What both handlers of a refused job do.
unqueued_Keeps :
    (env : Env) (d : Document) (reason : Message)
    → Keeps (
        transition_status env d failed (some reason) none
        >> (commit env >> raise {A = Unit {0}} (http 503)))
unqueued_Keeps env d reason =
    let stop : Service (Unit {0}) = raise (http 503) in
    bind_Keeps (transition_status env d failed (some reason) none) (λ v. commit env >> stop)
      (transition_status-Keeps env d failed (some reason) (failed-Sets reason))
      (λ v. bind_Keeps (commit env) (λ w. stop) (commit-Keeps env) (λ w s h. h))

enqueue_confirmed-Keeps : (env : Env) (d : Document) → Keeps (enqueue_confirmed env d)
unfolding enqueue_confirmed
enqueue_confirmed-Keeps env d =
    let reason = literal "Processing queue unavailable. Please retry." in
    let undo : Document.Error → Service (Unit {0}) =
      λ e. transition_status env d failed (some reason) none >> (commit env >> raise (http 503)) in
    bind_Keeps (catch (enqueue_ingest env d.id) undo) (λ v. pure (d.id, d.status))
      (catch-Keeps (enqueue_ingest env d.id) undo (enqueue_ingest-Keeps env d.id)
        (λ e. unqueued_Keeps env d reason))
      (λ v s h. h)

pub confirm_upload_endpoint-Keeps : (env : Env) (i u : ℕ) → Keeps (confirm_upload_endpoint env i u)
unfolding confirm_upload_endpoint
confirm_upload_endpoint-Keeps env i u =
    bind_Keeps (catch (confirm_upload env i u) confirm_errors) (enqueue_confirmed env)
      (catch-Keeps (confirm_upload env i u) confirm_errors (confirm_upload-Keeps env i u)
        confirm_errors-Keeps)
      (enqueue_confirmed-Keeps env)

not_found_is_404-Keeps : (e : Document.Error) → Keeps {A = Document} (not_found_is_404 e)
not_found_is_404-Keeps (client_error code) s h = h
not_found_is_404-Keeps _ s h = h

pub retry_document_endpoint-Keeps : (env : Env) (i u : ℕ) → Keeps (retry_document_endpoint env i u)
unfolding retry_document_endpoint get_document_status
retry_document_endpoint-Keeps env i u =
    let reason = literal "Processing queue unavailable. Please try again shortly." in
    let undo : Document → Document.Error → Service (Unit {0}) = λ d e.
      transition_status env d failed (some reason) none >> (commit env >> raise (http 503)) in
    let last : Document → Unit {0} → Service Answer = λ d v. pure (d.id, d.status) in
    let queue : Document → Document → Service Answer =
      λ d d'. catch (enqueue_ingest env d.id) (undo d') >>= last d' in
    let close : Document → Document → Service Answer = λ d d'. commit env >> queue d d' in
    let set : Document → Service Answer =
      λ d. transition_status env d processing none none >>= close d in
    let guard : Document → Service (Unit {0}) =
      λ d. raise_if (not (same_status d.status failed)) (http 400) in
    bind_Keeps (catch (get_document_for_user i u) not_found_is_404) (λ d. guard d >> set d)
      (catch-Keeps (get_document_for_user i u) not_found_is_404 (get_document_for_user-Keeps i u)
        not_found_is_404-Keeps)
      (λ d.
        bind_Keeps (guard d) (λ v. set d) (λ s h. h)
          (λ v.
            bind_Keeps (transition_status env d processing none none) (close d)
              (transition_status-Keeps env d processing none processing-Sets)
              (λ d'.
                bind_Keeps (commit env) (λ w. queue d d') (commit-Keeps env)
                  (λ w.
                    bind_Keeps (catch (enqueue_ingest env d.id) (undo d')) (last d')
                      (catch-Keeps (enqueue_ingest env d.id) (undo d')
                        (enqueue_ingest-Keeps env d.id) (λ e. unqueued_Keeps env d' reason))
                      (λ x s h. h)))))
