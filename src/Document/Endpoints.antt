-- ===== src/Document/Endpoints.antt =====
-- backend/app/routers/documents.py: the endpoints, with the handlers of the exceptions that they
-- catch. Each runs in the session of `get_db`, which commits when it returns and rolls back when
-- it raises.
use pdftalk.Prelude.{
  ℕ, ◌+◌, ◌-◌, ◌/◌, String, not, Option, none, some, List, [], ◌∷◌, ◌++◌, if◌then◌else◌,
}
use pdftalk.Document.{
  DocumentStatus, same_status, Error, Document, Database, Service, Env, commit, processing, failed,
  document_not_found, quota_exceeded, wrong_state, size_mismatch, client_error, http,
  queue_unavailable, literal,
}
use pdftalk.Prelude.Action.{pure, raise, raise_if, ◌>>=◌, ◌>>◌, catch, ok, err}
use pdftalk.Document.Service.{
  get_document_for_user, transition_status, count_user_documents, get_user_documents,
}
use pdftalk.Document.Flows.{
  upload_document, is_missing_code, delete_document, get_document_download_url, initiate_upload,
  confirm_upload,
}

-- `ingest_queue.enqueue(run_ingest, ...)`, which the handlers guard with `except Exception`.
unfoldable pub enqueue_ingest : Env → ℕ → Service (Unit {0})
enqueue_ingest env document_id s =
    if env.enqueues
    then (ok tt, record s { queue = s.queue ++ document_id ∷ [] })
    else (err queue_unavailable, s)

abbrev pub Answer : Type 0
Answer = ℕ × DocumentStatus

unfoldable pub upload_document_endpoint :
    Env → (List ℕ → String) → ℕ → ℕ → String → String → List (List ℕ) → Service Answer
unfolding enqueue_ingest
upload_document_endpoint env from_buffer max_docs user_id filename content_type reads = do
  document ← upload_document env from_buffer max_docs user_id filename content_type reads
  catch (enqueue_ingest env document.id)
      (λ e. do delete_document env document.id user_id; raise (http 503))
  pure (document.id, document.status)

-- `except DocumentNotFoundError: raise HTTPException(404)`
abbrev pub not_found_is_404 : {A : Type 0} → Error → Service A
not_found_is_404 document_not_found = raise (http 404)
not_found_is_404 e = raise e

unfoldable pub get_document_status : ℕ → ℕ → Service Document
get_document_status document_id user_id =
    catch (get_document_for_user document_id user_id) not_found_is_404

unfoldable pub get_document_download_url_endpoint : Env → ℕ → ℕ → Service String
get_document_download_url_endpoint env document_id user_id =
    catch (get_document_download_url env document_id user_id) not_found_is_404

abbrev pub delete_errors : Error → Service (Unit {0})
delete_errors document_not_found = raise (http 404)
delete_errors (client_error code) = raise (http 502)
delete_errors e = raise e

unfoldable pub delete_document_endpoint : Env → ℕ → ℕ → Service (Unit {0})
delete_document_endpoint env document_id user_id =
    catch (delete_document env document_id user_id) delete_errors

unfoldable pub retry_document_endpoint : Env → ℕ → ℕ → Service Answer
unfolding enqueue_ingest
retry_document_endpoint env document_id user_id = do
  document ← get_document_status document_id user_id
  raise_if (not (same_status document.status failed)) (http 400)
  document' ← transition_status env document processing none none
  commit env
  catch (enqueue_ingest env document.id) (λ e. do
    transition_status env document' failed
        (some (literal "Processing queue unavailable. Please try again shortly.")) none
    commit env
    raise (http 503))
  pure (document'.id, document'.status)

abbrev pub initiate_errors : Error → Service (Document × String)
initiate_errors quota_exceeded = raise (http 507)
initiate_errors e = raise e

unfoldable pub initiate_upload_endpoint :
    Env → ℕ → ℕ → String → String → ℕ → Service (Document × String)
initiate_upload_endpoint env max_docs user_id filename mime_type file_size_bytes =
    catch (initiate_upload env max_docs user_id filename mime_type file_size_bytes) initiate_errors

-- Of `ValueError` are the wrong state and the size mismatch.
abbrev pub confirm_errors : Error → Service Document
confirm_errors document_not_found = raise (http 404)
confirm_errors (wrong_state st) = raise (http 409)
confirm_errors (size_mismatch actual claimed) = raise (http 409)
confirm_errors (client_error code) =
    if is_missing_code code then raise (http 409) else raise (http 502)
confirm_errors e = raise e

-- Enqueue the job of the confirmed document; the handler moves the document to FAILED.
unfoldable pub enqueue_confirmed : Env → Document → Service Answer
unfolding enqueue_ingest
enqueue_confirmed env document = do
  catch (enqueue_ingest env document.id) (λ e. do
    transition_status env document failed
        (some (literal "Processing queue unavailable. Please retry.")) none
    commit env
    raise (http 503))
  pure (document.id, document.status)

unfoldable pub confirm_upload_endpoint : Env → ℕ → ℕ → Service Answer
confirm_upload_endpoint env document_id user_id = do
  document ← catch (confirm_upload env document_id user_id) confirm_errors
  enqueue_confirmed env document

-- math.ceil(total / limit), for a limit of 1 or more
pages : ℕ → ℕ → ℕ
pages total limit = (total + (limit - 1)) / limit

pub record DocumentList : Type 0 where
  pub items : List Document
  pub total : ℕ
  pub limit : ℕ
  pub offset : ℕ
  pub page_count : ℕ

unfoldable pub list_documents : Option DocumentStatus → ℕ → ℕ → ℕ → Database → DocumentList
unfolding pages
list_documents status limit offset user_id db =
    let total = count_user_documents user_id status [] db in
    record {
      items = get_user_documents user_id status limit offset db;
      total = total;
      limit = limit;
      offset = offset;
      page_count = pages total limit;
    }
