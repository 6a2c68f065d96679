-- ===== src/Document/Deletion.antt =====
-- Deletion of a document and the compensations of the direct upload, across the database, the
-- object store and the queue (backend/app/services/document_service.py,
-- backend/app/routers/documents.py).
use pdftalk.Prelude.{
  if◌then◌else◌, ap, ◌∙◌, arith, refl, inl, inr, Option-cases, String, ◌≡◌, true, false, Option,
  none, some, [], ◌∷◌, ◌++◌, ◌==◌, ℕ,
}
use pdftalk.Prelude.Action.{pure, raise, bind_ok, bind_err, ◌>>◌, catch, ◌>>=◌, ok, err}
use pdftalk.Document.{
  Database, commit, Service, Document, Env, is_document, S3Failure, coded, unanswered, client_error,
  deletes, State,
}
use pdftalk.Document.Flows.{tolerate_missing, is_missing_code, delete_document, delete_rows}
use pdftalk.Prelude.Table.{delete, find-delete_self, find}
use pdftalk.Document.Service.{answer, get_document_for_user, delete_object, owned_by}

-- A request goes on with the row that it fetched.
after_fetch :
    {A : Type 0} (i u : ℕ) (s : State) (d : Document) (k : Document → Service A)
    → find (owned_by i u) s.live.documents ≡ some d
    → (get_document_for_user i u >>= k) s ≡ k d s
unfolding get_document_for_user
after_fetch i u s d k found = ground arith

-- The row and all that hangs on it, gone from what is saved.
abbrev pub deleted : ℕ → String → State → State
deleted i key s =
    let db : Database = record {
      documents = delete (is_document i) s.live.documents;
      chunks = delete (λ c. c.document_id == i) s.live.chunks;
      job_logs = delete (λ l. l.document_id == i) s.live.job_logs;
    } in
    record s { saved = db; live = db; s3_calls = s.s3_calls ++ deletes key ∷ [] }

-- The object store lets go of the object, or has none.
abbrev pub IsReleased : Option S3Failure → Type 0
IsReleased none = Unit {0}
IsReleased (some (coded code)) = is_missing_code code ≡ true
IsReleased (some unanswered) = ⊥

module _ (env : Env) (key : String) (s : State) where
  object_released :
      IsReleased (env.delete_fails key)
      → catch (delete_object env key) tolerate_missing s
        ≡ (ok tt, record s { s3_calls = s.s3_calls ++ deletes key ∷ [] })
  unfolding delete_object
  object_released released = elim (Option-cases (env.delete_fails key)) [
    | inl gone ↦ rw (gone, delete_object, answer) refl
    | inr (unanswered, lost) ↦ absurd (rw lost at released)
    | inr (coded code, kept) ↦
        rw (kept, delete_object, answer)
          (ap
            (λ b.
              (if b then pure tt else raise (client_error code))
                (record s { s3_calls = s.s3_calls ++ deletes key ∷ [] }))
            (rw kept at released))
  ]

  object_refused :
      (code : String)
      → env.delete_fails key ≡ some (coded code)
      → is_missing_code code ≡ false
      → catch (delete_object env key) tolerate_missing s
        ≡ (err (client_error code), record s { s3_calls = s.s3_calls ++ deletes key ∷ [] })
  unfolding delete_object
  object_refused code kept other =
      rw (kept, delete_object, answer)
        (ap
          (λ b.
            (if b then pure tt else raise (client_error code))
              (record s { s3_calls = s.s3_calls ++ deletes key ∷ [] }))
          other)

delete_found : Env → Document → Service (Unit {0})
unfolding delete_object delete_rows
delete_found env doc = do
  catch (delete_object env doc.s3_key) tolerate_missing
  delete_rows doc.id
  commit env

pub delete_lem :
    (env : Env) (i u : ℕ) (s : State) (d : Document)
    → find (owned_by i u) s.live.documents ≡ some d
    → IsReleased (env.delete_fails d.s3_key)
    → env.commits ≡ true
    → delete_document env i u s ≡ (ok tt, deleted d.id d.s3_key s)
unfolding delete_document delete_found delete_object delete_rows
delete_lem env i u s d found released commits =
    after_fetch i u s d (delete_found env) found
    ∙ bind_ok (catch (delete_object env d.s3_key) tolerate_missing)
        (λ _. delete_rows d.id >> commit env) s _ tt (object_released env d.s3_key s released)
    ∙ rw commits refl

-- A deletion of the caller's document that the store accepts, or for which it has no object,
-- leaves nothing of it when the commit is accepted: no row, no chunk and no job log, committed. The store was asked once.
pub delete_document_clears :
    (env : Env) (i u : ℕ) (s : State) (d : Document)
    → find (owned_by i u) s.live.documents ≡ some d
    → IsReleased (env.delete_fails d.s3_key)
    → env.commits ≡ true
    → let (r, s') = delete_document env i u s in
      (r ≡ ok tt)
      × (find (is_document d.id) s'.saved.documents ≡ none)
      × (find (λ c. c.document_id == d.id) s'.saved.chunks ≡ none)
      × (find (λ l. l.document_id == d.id) s'.saved.job_logs ≡ none)
      × (s'.s3_calls ≡ s.s3_calls ++ deletes d.s3_key ∷ [])
delete_document_clears env i u s d found released commits =
    let done = delete_lem env i u s d found released commits in
    (
      ap (λ p. p.0) done,
      ap (λ p. find (is_document d.id) p.1.saved.documents) done
          ∙ find-delete_self (is_document d.id) s.live.documents,
      ap (λ p. find (λ c. c.document_id == d.id) p.1.saved.chunks) done
          ∙ find-delete_self (λ c. c.document_id == d.id) s.live.chunks,
      ap (λ p. find (λ l. l.document_id == d.id) p.1.saved.job_logs) done
          ∙ find-delete_self (λ l. l.document_id == d.id) s.live.job_logs,
      ap (λ p. p.1.s3_calls) done,
    )

-- When the store refuses the deletion with another error, that error is raised and the database
-- stays as it is: the document's rows are deleted only after its object.
delete_document_refused :
    (env : Env) (i u : ℕ) (s : State) (d : Document) (code : String)
    → find (owned_by i u) s.live.documents ≡ some d
    → env.delete_fails d.s3_key ≡ some (coded code)
    → is_missing_code code ≡ false
    → delete_document env i u s
      ≡ (err (client_error code), record s { s3_calls = s.s3_calls ++ deletes d.s3_key ∷ [] })
unfolding delete_document delete_found delete_object delete_rows
delete_document_refused env i u s d code found refused other =
    after_fetch i u s d (delete_found env) found
    ∙ bind_err (catch (delete_object env d.s3_key) tolerate_missing)
        (λ _. delete_rows d.id >> commit env) s _ _
        (object_refused env d.s3_key s code refused other)
