-- ===== src/Document/Confirm.antt =====
-- The second phase of the presigned upload: `confirm_upload` on each branch, and what its endpoint
-- does when the queue is down.
use pdftalk.Document.Endpoints.{enqueue_confirmed, enqueue_ingest, confirm_upload_endpoint}
use pdftalk.Prelude.{
  ap, ◌≢◌, refl, inl, inr, Bool-cases, Option-cases, [], ◌∷◌, ◌++◌, ℕ, ◌≤◌, ◌≡◌, ◌↔◌, true, false,
  some, arith, ◌*◌,
}
use pdftalk.Document.Service.{
  answer, delete_object, owned_by, get_document_for_user, transition_status,
}
use pdftalk.Prelude.Action.{Result-cases, err, ok}
use pdftalk.Document.Flows.{
  reject_size, exceeds_tolerance, head_object, accept_size, confirm_upload,
}
use pdftalk.Document.{
  coded, unanswered, Message, Database, is_document, invalid_transition, deletes, heads, Document,
  State, Env, pending_upload, pending, failed, size_mismatch, described,
}
use pdftalk.Prelude.Table.{update, find}

-- The sizes that the tolerance accepts: within a tenth of the claimed size, and only an empty
-- object for a claim of nothing.
abbrev pub WithinTolerance : ℕ → ℕ → Type 0
WithinTolerance actual claimed = (9 * claimed ≤ 10 * actual) × (10 * actual ≤ 11 * claimed)

-- The size check accepts exactly the objects within 10 % of the claimed size.
exceeds_tolerance_iff :
    (actual claimed : ℕ)
    → (exceeds_tolerance actual claimed ≡ false) ↔ WithinTolerance actual claimed
exceeds_tolerance_iff actual claimed = (λ h. ground arith, λ h. ground arith)

-- What a confirmation does to the row, and what a rejection does.
abbrev pub confirmed : Env → Document → Document
confirmed env d = record d { status = pending; updated_at = env.now }

abbrev pub rejected : Env → Message → Document → Document
rejected env m d = record d { status = failed; error_message = some m; updated_at = env.now }

abbrev pub with_row : ℕ → (Document → Document) → Database → Database
with_row i f db = record db { documents = update (is_document i) f db.documents }

-- Whatever the store answers to the deletion, the row fails.
reject_size_lem :
    (env : Env) (d : Document) (actual : ℕ) (s : State)
    → d.status ≡ pending_upload
    → env.commits ≡ true
    → env.delete_fails d.s3_key ≢ some unanswered
    → let row = rejected env (described (size_mismatch actual d.file_size_bytes)) in
      reject_size env d actual s ≡ (
        err (size_mismatch actual d.file_size_bytes),
        record s {
          saved = with_row d.id row s.live;
          live = with_row d.id row s.live;
          s3_calls = s.s3_calls ++ deletes d.s3_key ∷ [];
        },
      )
unfolding reject_size transition_status delete_object
reject_size_lem env d actual s waiting commits answered =
    elim (Option-cases (env.delete_fails d.s3_key)) [
      | inl gone ↦ rw (gone, delete_object, answer) (rw waiting (rw commits refl))
      | inr (coded code, stays) ↦ rw (stays, delete_object, answer) (rw waiting (rw commits refl))
      | inr (unanswered, lost) ↦ absurd (answered lost)
    ]

module _ (env : Env) (i u : ℕ) (s : State) (d : Document) (actual : ℕ) where
  -- When the commit is accepted, the caller's pending upload whose object has a size within the
  -- tolerance becomes PENDING: the row and
  -- nothing else is written, and committed; the store is asked once for the object's head.
  confirm_upload_accepts :
      find (owned_by i u) s.live.documents ≡ some d
      → d.status ≡ pending_upload
      → env.head_object d.s3_key ≡ ok actual
      → WithinTolerance actual d.file_size_bytes
      → env.commits ≡ true
      → confirm_upload env i u s ≡ (
        ok (confirmed env d),
        record s {
          saved = with_row d.id (confirmed env) s.live;
          live = with_row d.id (confirmed env) s.live;
          s3_calls = s.s3_calls ++ heads d.s3_key ∷ [];
        },
      )
  unfolding confirm_upload get_document_for_user head_object accept_size transition_status
  confirm_upload_accepts found waiting headed near commits =
      ground (arith, (exceeds_tolerance_iff actual d.file_size_bytes).1 near)

  -- When the commit is accepted, the caller's pending upload whose object is off by more than 10 %
  -- is refused: the deletion of the object
  -- is requested, which the store may refuse but has to answer, and the row is FAILED with the two sizes, committed.
  confirm_upload_rejects :
      find (owned_by i u) s.live.documents ≡ some d
      → d.status ≡ pending_upload
      → env.head_object d.s3_key ≡ ok actual
      → ¬ WithinTolerance actual d.file_size_bytes
      → env.commits ≡ true
      → env.delete_fails d.s3_key ≢ some unanswered
      → let row = rejected env (described (size_mismatch actual d.file_size_bytes)) in
        confirm_upload env i u s ≡ (
          err (size_mismatch actual d.file_size_bytes),
          record s {
            saved = with_row d.id row s.live;
            live = with_row d.id row s.live;
            s3_calls = (s.s3_calls ++ heads d.s3_key ∷ []) ++ deletes d.s3_key ∷ [];
          },
        )
  unfolding confirm_upload get_document_for_user head_object reject_size transition_status
      delete_object
  confirm_upload_rejects found waiting headed far commits answered =
      elim (Bool-cases (exceeds_tolerance actual d.file_size_bytes)) [
        | inl over ↦ ground (
          arith,
          reject_size_lem env d actual (record s { s3_calls = s.s3_calls ++ heads d.s3_key ∷ [] })
              waiting commits answered,
        )
        | inr near ↦ absurd (far ((exceeds_tolerance_iff actual d.file_size_bytes).0 near))
      ]

reject_size_raises :
    (env : Env) (d : Document) (actual : ℕ) (s : State) (r : Document)
    → (reject_size env d actual s).0 ≢ ok r
unfolding reject_size transition_status delete_object
reject_size_raises env d actual s r h = elim (Option-cases (env.delete_fails d.s3_key)) [
  | inl gone ↦ ground arith
  | inr (code, stays) ↦ ground arith
]

commits_of_accept :
    (env : Env) (d : Document) (s : State) (r : Document)
    → (accept_size env d s).0 ≡ ok r
    → env.commits ≡ true
unfolding accept_size transition_status
commits_of_accept env d s r h = ground arith

-- What a call that returns has met on its way.
confirm_upload_path :
    (env : Env) (i u : ℕ) (s : State) (r d : Document) (actual : ℕ)
    → find (owned_by i u) s.live.documents ≡ some d
    → env.head_object d.s3_key ≡ ok actual
    → (confirm_upload env i u s).0 ≡ ok r
    → (d.status ≡ pending_upload) × WithinTolerance actual d.file_size_bytes × (env.commits ≡ true)
unfolding confirm_upload get_document_for_user head_object
confirm_upload_path env i u s r d actual found headed h =
    let s' : State = record s { s3_calls = s.s3_calls ++ heads d.s3_key ∷ [] } in
    ground (
      arith,
      reject_size_raises env d actual s' r,
      commits_of_accept env d s' r,
      exceeds_tolerance_iff actual d.file_size_bytes,
    )

-- A call that returns has found the caller's own document waiting for its upload and an object of
-- a size within the tolerance, and has committed what the session sees.
pub confirm_upload_sound :
    (env : Env) (i u : ℕ) (s : State) (r : Document)
    → (confirm_upload env i u s).0 ≡ ok r
    → (d : Document) × (actual : ℕ) × (find (owned_by i u) s.live.documents ≡ some d)
      × (d.status ≡ pending_upload)
      × (env.head_object d.s3_key ≡ ok actual)
      × WithinTolerance actual d.file_size_bytes
      × (r ≡ confirmed env d)
      × ((confirm_upload env i u s).1.saved ≡ with_row d.id (confirmed env) s.live)
unfolding confirm_upload get_document_for_user head_object accept_size reject_size transition_status
    delete_object
confirm_upload_sound env i u s r h = elim (Option-cases (find (owned_by i u) s.live.documents)) [
  | inl missing ↦ absurd (ground arith)
  | inr (d, found) ↦ elim (Result-cases (env.head_object d.s3_key)) [
    | inl (code, absent) ↦ absurd (ground arith)
    | inr (actual, headed) ↦
        let (waiting, near, commits) = confirm_upload_path env i u s r d actual found headed h in
        let done = confirm_upload_accepts env i u s d actual found waiting headed near commits in
        (d, actual, found, waiting, headed, near, cc (ap (λ p. p.0) done), ap (λ p. p.1.saved) done)
  ]
]

enqueue_confirmed_refused :
    (env : Env) (d : Document) (s : State)
    → d.status ≡ pending
    → env.enqueues ≡ false
    → enqueue_confirmed env d s ≡ (err (invalid_transition pending failed), s)
unfolding enqueue_confirmed transition_status
enqueue_confirmed_refused env d s waiting down = rw (down, enqueue_ingest) (rw waiting refl)

-- When the queue refuses the job, the endpoint means to mark the document FAILED, so that it can
-- be retried, and to answer 503. The status machine has no move from PENDING to FAILED: the
-- endpoint raises the transition error instead and leaves what `confirm_upload` left, where the
-- document is committed as PENDING and no job is queued.
pub confirm_upload_endpoint_unqueued :
    (env : Env) (i u : ℕ) (s : State) (r : Document)
    → (confirm_upload env i u s).0 ≡ ok r
    → env.enqueues ≡ false
    → confirm_upload_endpoint env i u s
      ≡ (err (invalid_transition pending failed), (confirm_upload env i u s).1)
unfolding confirm_upload_endpoint
confirm_upload_endpoint_unqueued env i u s r h down =
    let (d, actual, found, waiting, headed, near, e, saved) = confirm_upload_sound env i u s r h in
    let status : r.status ≡ pending = ap (λ (x : Document). x.status) e in
    ground (arith, enqueue_confirmed_refused env r (confirm_upload env i u s).1 status down)
