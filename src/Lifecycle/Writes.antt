-- ===== src/Lifecycle/Writes.antt =====
-- The methods of backend/app/services/document_service.py that the requests share keep every
-- document explained.
use pdftalk.Prelude.{
  refl, false, ℕ, String, ◌≡◌, ◌≢◌, inl, inr, true, Option, none, some, [], ◌∷◌, arith,
  Option-cases, All-append,
}
use pdftalk.Document.{
  S3Failure, Service, invalid_transition, same_status, pending_upload, pending, processing,
  is_allowed, Error, is_document, write, ready, deletes, Env, Document, DocumentStatus, Message,
  failed, S3Call,
}
use pdftalk.Prelude.Action.{pure, raise, ◌>>=◌, Result, Result-cases}
use pdftalk.Document.Flows.{delete_rows, head_object}
use pdftalk.Lifecycle.Keeps.{
  Keeps, bind_Keeps, if_Keeps, write-Keeps, IsExplained, All-delete, has_reason,
}
use pdftalk.Document.Service.{
  new_document, owned_by, get_document_for_user, transition_status, set_status, check_quota,
  call_s3, answer, delete_object, add_document, lift,
}
use pdftalk.Prelude.Table.{find}
use pdftalk.Document

pub lift-Keeps : {A : Type 0} (r : Result Document.Error A) → Keeps (lift r)
unfolding lift
lift-Keeps r s h = h

pub get_document_for_user-Keeps : (i u : ℕ) → Keeps (get_document_for_user i u)
unfolding get_document_for_user
get_document_for_user-Keeps i u s h = elim (Option-cases (find (owned_by i u) s.live.documents)) [
  | inl absent ↦ rw (absent, get_document_for_user) h
  | inr (d, found) ↦ rw (found, get_document_for_user) h
]

pub check_quota-Keeps : (n u : ℕ) → Keeps (check_quota n u)
unfolding check_quota
check_quota-Keeps n u s h = h

pub call_s3-Keeps : (c : S3Call) → Keeps (call_s3 c)
call_s3-Keeps c s h = h

pub answer-Keeps : (o : Option S3Failure) → Keeps (answer o)
answer-Keeps none s h = h
answer-Keeps (some code) s h = h

pub delete_object-Keeps : (env : Env) (key : String) → Keeps (delete_object env key)
unfolding delete_object
delete_object-Keeps env key =
    bind_Keeps (call_s3 (deletes key)) (λ u. answer (env.delete_fails key))
      (call_s3-Keeps (deletes key)) (λ u. answer-Keeps (env.delete_fails key))

pub head_object-Keeps : (env : Env) (key : String) → Keeps (head_object env key)
unfolding head_object
head_object-Keeps env key s h = elim (Result-cases (env.head_object key)) [
  | inl (code, gone) ↦ rw (gone, head_object) h
  | inr (size, there) ↦ rw (there, head_object) h
]

pub add_document-Keeps : (d : Document) → IsExplained d → Keeps (add_document d)
unfolding add_document
add_document-Keeps d g s h = (All-append IsExplained s.live.documents (d ∷ []) h.0 (g, tt), h.1)

pub delete_rows-Keeps : (i : ℕ) → Keeps (delete_rows i)
unfolding delete_rows
delete_rows-Keeps i s h = (All-delete (is_document i) s.live.documents h.0, h.1)

-- The statuses that the requests set, with a reason where they fail a document.
abbrev pub Sets : DocumentStatus → Option Message → Type 0
Sets to_status reason = (to_status ≢ ready) × (to_status ≡ failed → has_reason reason ≡ true)

set_status-IsExplained :
    (st : DocumentStatus) (reason : Option Message) (d : Document)
    → Sets st reason
    → IsExplained d
    → IsExplained (set_status st reason none d)
set_status-IsExplained st reason d g h = (λ e. absurd (g.0 e), λ e. ground (arith, g.1 e, e))

pub transition_status-Keeps :
    (env : Env) (doc : Document) (st : DocumentStatus) (reason : Option Message)
    → Sets st reason
    → Keeps (transition_status env doc st reason none)
unfolding transition_status
transition_status-Keeps env doc st reason g =
    let set = write env doc.id (set_status st reason none) in
    let give : Unit {0} → Service Document =
      λ u. pure (record (set_status st reason none doc) { updated_at = env.now }) in
    if_Keeps (is_allowed doc.status st) (set >>= give) (raise (invalid_transition doc.status st))
      (bind_Keeps set give
        (write-Keeps env doc.id (set_status st reason none)
          (λ d. set_status-IsExplained st reason d g))
        (λ u s h. h))
      (λ s h. h)

not_ready : (st : DocumentStatus) → same_status st ready ≡ false → st ≢ ready
not_ready st e h = absurd (ground (arith, e, h))

pub failed-Sets : (m : Message) → Sets failed (some m)
failed-Sets m = (not_ready failed refl, λ e. refl)

pub processing-Sets : Sets processing none
processing-Sets = (not_ready processing refl, λ e. absurd (ground (arith, e)))

pub pending-Sets : Sets pending none
pending-Sets = (not_ready pending refl, λ e. absurd (ground (arith, e)))

-- What a new row starts with.
pub new_document-IsExplained :
    (env : Env) (u : ℕ) (filename mime : String) (size : ℕ) (st : DocumentStatus)
    → Sets st none
    → IsExplained (new_document env u filename mime size st)
new_document-IsExplained env u filename mime size st g = (λ e. absurd (g.0 e), g.1)

pub pending_upload-Sets : Sets pending_upload none
pending_upload-Sets = (not_ready pending_upload refl, λ e. absurd (ground (arith, e)))
