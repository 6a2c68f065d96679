-- ===== src/Exceptions.antt =====
-- backend/app/exceptions.py: the application's exceptions, and the handlers that turn them into
-- HTTP answers. An exception with no handler is the framework's to answer.
use pdftalk.Prelude.{ℕ, String, Option, none, some}
use pdftalk.Document.{DocumentStatus}

-- With those of backend/app/utils/openai_client.py that the handlers name, and what the libraries
-- raise: a `ValueError`, a failed commit, an HTTP error of OpenAI, anything else.
pub data PdfTalkError : Type 0 where
  rate_limit_exceeded : ℕ → PdfTalkError
  rate_limiter_unavailable : PdfTalkError
  invalid_token expired_token inactive_user unverified_user user_not_found : PdfTalkError
  invalid_credentials unverified_email invalid_reset_token : PdfTalkError
  quota_exceeded document_not_found all_documents_deleted : PdfTalkError
  document_not_ready : DocumentStatus → PdfTalkError
  invalid_status_transition : DocumentStatus → DocumentStatus → PdfTalkError
  file_validation : String → PdfTalkError
  extraction chunking : PdfTalkError
  chat_not_found message_not_found empty_document_list invalid_document_selection : PdfTalkError
  circuit_breaker_open retry_exhausted daily_quota_exceeded daily_query_quota_exceeded :
      PdfTalkError
  value_error db_error unexpected : PdfTalkError
  api_status : ℕ → PdfTalkError

-- The status and the `error` code of the answer.
abbrev pub handled_as : PdfTalkError → Option (ℕ × String)
handled_as expired_token = some (401, "TOKEN_EXPIRED")
handled_as invalid_token = some (401, "INVALID_TOKEN")
handled_as user_not_found = some (401, "INVALID_TOKEN")
handled_as inactive_user = some (403, "ACCOUNT_INACTIVE")
handled_as unverified_user = some (403, "EMAIL_NOT_VERIFIED")
handled_as invalid_credentials = some (401, "INVALID_CREDENTIALS")
handled_as unverified_email = some (403, "EMAIL_NOT_VERIFIED")
handled_as invalid_reset_token = some (400, "INVALID_OR_EXPIRED_TOKEN")
handled_as (rate_limit_exceeded n) = some (429, "RATE_LIMIT_EXCEEDED")
handled_as rate_limiter_unavailable = some (503, "RATE_LIMITER_UNAVAILABLE")
handled_as (file_validation reason) = some (422, "FILE_VALIDATION_FAILED")
handled_as document_not_found = some (404, "DOCUMENT_NOT_FOUND")
handled_as (document_not_ready st) = some (409, "DOCUMENT_NOT_READY")
handled_as all_documents_deleted = some (409, "ALL_DOCUMENTS_DELETED")
handled_as (invalid_status_transition a b) = some (409, "INVALID_STATUS_TRANSITION")
handled_as circuit_breaker_open = some (503, "AI_SERVICE_UNAVAILABLE")
handled_as retry_exhausted = some (503, "AI_SERVICE_UNAVAILABLE")
handled_as daily_quota_exceeded = some (429, "DAILY_QUOTA_EXCEEDED")
handled_as daily_query_quota_exceeded = some (429, "DAILY_QUERY_QUOTA_EXCEEDED")
handled_as chat_not_found = some (404, "CHAT_NOT_FOUND")
handled_as message_not_found = some (404, "MESSAGE_NOT_FOUND")
handled_as empty_document_list = some (400, "EMPTY_DOCUMENT_LIST")
handled_as invalid_document_selection = some (400, "INVALID_DOCUMENT_SELECTION")
handled_as quota_exceeded = none
handled_as extraction = none
handled_as chunking = none
handled_as value_error = none
handled_as db_error = none
handled_as unexpected = none
handled_as (api_status n) = none
