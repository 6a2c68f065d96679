-- ===== src/Document/Isolation.antt =====
-- A document of another user, and the moves of the status machine
-- (backend/app/routers/documents.py, backend/app/services/document_service.py).
use pdftalk.Prelude.{
  sym, refl, ◌≢◌, inl, inr, ==_refl, Bool-cases, ◌≡◌, ◌⊎◌, true, false, Option, none, some, arith,
  ℕ,
}
use mathlib.Core.Path.{subst}
use pdftalk.Document.{
  pending_upload, pending, processing, ready, failed, DocumentStatus, is_allowed, Message, Document,
  Env, is_document, invalid_transition, http, State,
}
use pdftalk.Prelude.Table.{find-update_self, find}
use pdftalk.Document.Service.{set_status, get_document_for_user, transition_status, owned_by}
use pdftalk.Prelude.Action.{ok, err}
use pdftalk.Document.Flows.{delete_document, get_document_download_url, confirm_upload}
use pdftalk.Document.Endpoints.{
  get_document_status, get_document_download_url_endpoint, delete_document_endpoint,
  confirm_upload_endpoint, retry_document_endpoint,
}

-- No endpoint reaches a document that the caller does not own, or that does not exist: each
-- answers 404, the two cases alike, and neither the rows, the queue nor the object store change.
pub endpoints_isolate :
    (env : Env) (i u : ℕ) (s : State)
    → find (owned_by i u) s.live.documents ≡ none
    → (get_document_status i u s ≡ (err (http 404), s))
      × (get_document_download_url_endpoint env i u s ≡ (err (http 404), s))
      × (delete_document_endpoint env i u s ≡ (err (http 404), s))
      × (retry_document_endpoint env i u s ≡ (err (http 404), s))
      × (confirm_upload_endpoint env i u s ≡ (err (http 404), s))
unfolding get_document_status get_document_download_url_endpoint delete_document_endpoint
    retry_document_endpoint confirm_upload_endpoint get_document_for_user get_document_download_url
    delete_document confirm_upload
endpoints_isolate env i u s absent = ground arith

-- A transition is made exactly when the machine allows it. Then it changes the one row; otherwise
-- it raises and the state stays as it is.
pub transition_status_cases :
    (env : Env) (d : Document) (to_status : DocumentStatus) (m : Option Message) (n : Option ℕ)
    (s : State)
    → find (is_document d.id) s.live.documents ≡ some d
    → ((is_allowed d.status to_status ≡ true)
        × ((row : Document) × ((transition_status env d to_status m n s).0 ≡ ok row)
            × (row.status ≡ to_status)
            × (find (is_document d.id) (transition_status env d to_status m n s).1.live.documents
                ≡ some row)))
      ⊎ ((is_allowed d.status to_status ≡ false)
          × (transition_status env d to_status m n s
              ≡ (err (invalid_transition d.status to_status), s)))
unfolding transition_status
transition_status_cases env d to_status m n s found =
    elim (Bool-cases (is_allowed d.status to_status)) [
      | inl may ↦ inl (
        may,
        rw may (
          _,
          refl,
          refl,
          find-update_self (is_document d.id) (is_document d.id)
              (λ r. record (set_status to_status m n r) { updated_at = env.now }) s.live.documents d
              (λ y. refl) found (==_refl d.id),
        ),
      )
      | inr never ↦ inr (never, rw never refl)
    ]

-- The statuses that a row can pass through by the machine's moves.
pub data Reaches : DocumentStatus → DocumentStatus → Type 0 where
  at_end : {st : DocumentStatus} → Reaches st st
  moved : {a b c : DocumentStatus} → is_allowed a b ≡ true → Reaches b c → Reaches a c

only_processing : (a : DocumentStatus) → is_allowed a ready ≡ true → a ≡ processing
only_processing processing h = refl
only_processing pending_upload h = absurd (ground arith)
only_processing pending h = absurd (ground arith)
only_processing ready h = absurd (ground arith)
only_processing failed h = absurd (ground arith)

final : (b : DocumentStatus) → is_allowed ready b ≢ true
final b h = ground arith

by_processing :
    (a c : DocumentStatus) → Reaches a c → c ≡ ready → (a ≡ ready) ⊎ Reaches a processing
by_processing a _ at_end e = inl e
by_processing a c (moved {b = b} h rest) e = elim (by_processing b c rest e) [
  | inl at_ready ↦
      let now : a ≡ processing = only_processing a (ground arith) in
      inr (subst (λ x. Reaches x processing) (sym now) at_end)
  | inr r ↦ inr (moved h r)
]

stuck : (a b : DocumentStatus) → Reaches a b → a ≡ ready → b ≡ ready
stuck a _ at_end e = e
stuck a b (moved {b = c} h rest) e = absurd (final c (ground arith))

-- A document becomes READY only by way of PROCESSING, and a READY document moves no more.
Reaches-ready :
    (a b : DocumentStatus)
    → Reaches a ready
    → a ≢ ready
    → Reaches ready b
    → Reaches a processing × (b ≡ ready)
Reaches-ready a b r unready t = (
  elim (by_processing a ready r refl) [ inl e ↦ absurd (unready e) | inr p ↦ p ],
  stuck ready b t refl,
)
