-- ===== src/Cleanup/Rounds.antt =====
-- The loops of the cleanup job (backend/app/workers/tasks.py): what their rounds make of the rows,
-- the logs and the calls of the object store.
use pdftalk.Prelude.{
  Option, true, false, ◌&&◌, some, ap, ◌∙◌, ==_refl, ◌≡◌, refl, inl, inr, Bool, none, List, [], ◌∷◌,
  ◌++◌, map, arith, if◌then◌else◌, Bool-cases, Option-cases, ℕ,
}
use pdftalk.Document.{
  S3Failure, coded, unanswered, botocore_error, failed, Message, JobLog, S3Call, is_document,
  deletes, Document, Env, State,
}
use pdftalk.Cleanup.{upload_reason, mark, upload_loop, batch_loop}
use mathlib.Core.List.{append_assoc, append-nil}
use pdftalk.Document.Keys.{update-absent, IsKeyed}
use pdftalk.Prelude.Action.{ok, err}
use pdftalk.Prelude.Table.{find, update, select}
use pdftalk.Document.Service.{answer, delete_object}
use pdftalk.Document

-- One round on the row of a document, with the time of the write.
abbrev pub failed_row : Env → Message → Document.Document → Document.Document
failed_row env reason d = record d {
  status = failed;
  error_message = some reason;
  updated_at = env.now;
}

-- The rounds on the table, one after another.
abbrev pub write_all :
    Env → Message → List Document.Document → List Document.Document → List Document.Document
write_all env reason [] xs = xs
write_all env reason (d ∷ ds) xs =
    write_all env reason ds (update (is_document d.id) (failed_row env reason) xs)

abbrev pub when :
    (Document.Document → Bool)
    → (Document.Document → Document.Document)
    → Document.Document
    → Document.Document
when p f d = if p d then f d else d

module _ (env : Env) (reason : Message) where
  write_all_other :
      (ds : List Document.Document) (x : Document.Document) (xs : List Document.Document)
      → find (is_document x.id) ds ≡ none
      → write_all env reason ds (x ∷ xs) ≡ x ∷ write_all env reason ds xs
  write_all_other [] x xs h = refl
  write_all_other (d ∷ ds) x xs h =
      ground (arith, write_all_other ds x (update (is_document d.id) (failed_row env reason) xs))

  absent_select :
      (p : Document.Document → Bool) (i : ℕ) (xs : List Document.Document)
      → find (is_document i) xs ≡ none
      → find (is_document i) (select p xs) ≡ none
  absent_select p i [] h = refl
  absent_select p i (x ∷ xs) h = ground (arith, absent_select p i xs)

  -- Under the primary key the rounds on the selected rows are one map over the table.
  pub write_all-select :
      (p : Document.Document → Bool) (xs : List Document.Document)
      → IsKeyed xs
      → write_all env reason (select p xs) xs ≡ map (when p (failed_row env reason)) xs
  write_all-select p [] k = refl
  write_all-select p (x ∷ xs) k = elim (Bool-cases (p x)) [
    | inl hit ↦ ground (
      arith,
      ==_refl x.id,
      update-absent x.id (failed_row env reason) xs k.0,
      write_all_other (select p xs) (failed_row env reason x) xs (absent_select p x.id xs k.0),
      write_all-select p xs k.1,
    )
    | inr miss ↦ ground (
      arith,
      write_all_other (select p xs) x xs (absent_select p x.id xs k.0),
      write_all-select p xs k.1,
    )
  ]

  absent_map :
      (p : Document.Document → Bool) (i : ℕ) (xs : List Document.Document)
      → find (is_document i) xs ≡ none
      → find (is_document i) (map (when p (failed_row env reason)) xs) ≡ none
  absent_map p i [] h = refl
  absent_map p i (x ∷ xs) h = ground (arith, absent_map p i xs)

  pub map-IsKeyed :
      (p : Document.Document → Bool) (xs : List Document.Document)
      → IsKeyed xs
      → IsKeyed (map (when p (failed_row env reason)) xs)
  map-IsKeyed p [] k = tt
  map-IsKeyed p (x ∷ xs) k = elim (Bool-cases (p x)) [
    | inl hit ↦ rw hit (absent_map p x.id xs k.0, map-IsKeyed p xs k.1)
    | inr miss ↦ rw miss (absent_map p x.id xs k.0, map-IsKeyed p xs k.1)
  ]

abbrev pub log_of : Message → Document.Document → JobLog
log_of reason d = record { document_id = d.id; error = reason }

abbrev pub deletion : Document.Document → S3Call
deletion d = deletes d.s3_key

abbrev pub marked : Env → Message → List Document.Document → State → State
marked env reason docs s = record s {
  live = record s.live {
    documents = write_all env reason docs s.live.documents;
    job_logs = s.live.job_logs ++ map (log_of reason) docs;
  };
}

pub batch_loop_lem :
    (env : Env) (reason : Message) (docs : List Document.Document) (s : State)
    → batch_loop env reason docs s ≡ (ok tt, marked env reason docs s)
unfolding batch_loop mark
batch_loop_lem env reason [] s = ground (arith, append-nil s.live.job_logs)
batch_loop_lem env reason (d ∷ docs) s =
    batch_loop_lem env reason docs (marked env reason (d ∷ []) s)
    ∙ ap
        (λ l. (
          ok tt,
          record s {
            live = record s.live {
              documents = write_all env reason (d ∷ docs) s.live.documents;
              job_logs = l;
            };
          },
        ))
        (append_assoc s.live.job_logs (log_of reason d ∷ []) (map (log_of reason) docs))

-- The object store answers the deletion, be it with an error.
abbrev pub answers : Option S3Failure → Bool
answers none = true
answers (some (coded code)) = true
answers (some unanswered) = false

abbrev pub all_answered : Env → List Document.Document → Bool
all_answered env [] = true
all_answered env (d ∷ ds) = answers (env.delete_fails d.s3_key) && all_answered env ds

-- Where the store answers, the deletion of an abandoned object is requested, and the loop goes on.
upload_round :
    (env : Env) (d : Document.Document) (docs : List Document.Document) (s : State)
    → answers (env.delete_fails d.s3_key) ≡ true
    → upload_loop env (d ∷ docs) s
      ≡ upload_loop env docs (record (marked env upload_reason (d ∷ []) s) {
        s3_calls = s.s3_calls ++ deletion d ∷ [];
      })
unfolding upload_loop mark delete_object
upload_round env d docs s h = elim (Option-cases (env.delete_fails d.s3_key)) [
  | inl gone ↦ rw (gone, delete_object, answer) refl
  | inr (coded code, stays) ↦ rw (stays, delete_object, answer) refl
  | inr (unanswered, lost) ↦ absurd (ground (arith, lost, h))
]

both_true : (a b : Bool) → a && b ≡ true → (a ≡ true) × (b ≡ true)
both_true true b h = (refl, h)
both_true false b h = absurd (ground (arith, h))

-- A deletion without an answer breaks the loop off; what is saved stays.
pub upload_loop_breaks :
    (env : Env) (docs : List Document.Document) (s : State)
    → all_answered env docs ≡ false
    → ((upload_loop env docs s).0 ≡ err botocore_error)
      × ((upload_loop env docs s).1.saved ≡ s.saved)
unfolding upload_loop mark delete_object
upload_loop_breaks env [] s h = absurd (ground (arith, h))
upload_loop_breaks env (d ∷ docs) s h = elim (Bool-cases (answers (env.delete_fails d.s3_key))) [
  | inl here ↦
      let round = upload_round env d docs s here in
      let next = record (marked env upload_reason (d ∷ []) s) {
        s3_calls = s.s3_calls ++ deletion d ∷ [];
      } in
      let (raised, same) = upload_loop_breaks env docs next (rw here at h) in
      (ap (λ p. p.0) round ∙ raised, ap (λ p. p.1.saved) round ∙ same)
  | inr gone ↦ elim (Option-cases (env.delete_fails d.s3_key)) [
    | inl done ↦ absurd (ground (arith, gone, done))
    | inr (coded code, stays) ↦ absurd (ground (arith, gone, stays))
    | inr (unanswered, lost) ↦ rw (lost, delete_object, answer) (refl, refl)
  ]
]

pub upload_loop_lem :
    (env : Env) (docs : List Document.Document) (s : State)
    → all_answered env docs ≡ true
    → upload_loop env docs s ≡ (
      ok tt,
      record (marked env upload_reason docs s) { s3_calls = s.s3_calls ++ map deletion docs },
    )
unfolding upload_loop mark
upload_loop_lem env [] s h = ground (arith, append-nil s.live.job_logs, append-nil s.s3_calls)
upload_loop_lem env (d ∷ docs) s h =
    let (here, later) = both_true (answers (env.delete_fails d.s3_key)) (all_answered env docs) h in
    upload_round env d docs s here
    ∙ (upload_loop_lem env docs
          (record (marked env upload_reason (d ∷ []) s) {
            s3_calls = s.s3_calls ++ deletion d ∷ [];
          })
          later
        ∙ (λ i. (
          ok tt,
          record s {
            s3_calls = append_assoc s.s3_calls (deletion d ∷ []) (map deletion docs) i;
            live = record s.live {
              documents = write_all env upload_reason (d ∷ docs) s.live.documents;
              job_logs =
                  append_assoc s.live.job_logs (log_of upload_reason d ∷ [])
                    (map (log_of upload_reason) docs) i;
            };
          },
        )))
