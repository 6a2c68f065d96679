-- ===== src/Middleware.antt =====
-- backend/app/middleware/logging.py and security.py: what surrounds every request. The clock, the
-- decoder of tokens and `str.strip` are arguments; so is the handler, with a state of its own.
pub mod Headers
use pdftalk.Prelude.{
  ℕ, String, Bool, Option, none, some, List, [], ◌∷◌, ◌==◌, ◌||◌, if◌then◌else◌, str_eq, take,
}
use pdftalk.Prelude.Action.{Result, ok, err}
use pdftalk.Prelude.Text.{codes}
use pdftalk.Logging.{EventDict}

abbrev pub Headers : Type 0
Headers = EventDict String

-- `headers[key] = value`, with the keys in lower case: the first entry of the key is replaced, any
-- other of it removed.
abbrev pub without : String → Headers → Headers
without key [] = []
without key ((k, w) ∷ headers) =
    let rest = without key headers in if str_eq k key then rest else (k, w) ∷ rest

abbrev pub set_header : String → String → Headers → Headers
set_header key value [] = (key, value) ∷ []
set_header key value ((k, w) ∷ headers) =
    let rest = set_header key value headers in
    if str_eq k key then (k, value) ∷ without key headers else (k, w) ∷ rest

pub record Response : Type 0 where
  pub status_code : ℕ
  pub headers : Headers

-- The path has no query string.
pub record Request : Type 0 where
  pub method : String
  pub path : String
  pub x_real_ip : Option (List ℕ)
  pub x_forwarded_for : Option (List ℕ)
  pub authorization : Option (List ℕ)
  pub client_host : Option (List ℕ)

abbrev pub is_docs : String → Bool
is_docs path = str_eq path "/docs" || (str_eq path "/redoc" || str_eq path "/openapi.json")

abbrev docs_policy : String
docs_policy =
    "default-src 'self'; script-src 'self' 'unsafe-inline' https://cdn.jsdelivr.net; style-src 'self' 'unsafe-inline' https://cdn.jsdelivr.net; img-src 'self' data: https://fastapi.tiangolo.com"

abbrev pub policy_for : String → String
policy_for path = if is_docs path then docs_policy else "default-src 'none'"

abbrev pub secured : Request → Headers → Headers
secured request headers = set_header "content-security-policy" (policy_for request.path) (
    set_header "permissions-policy" "camera=(), microphone=(), geolocation=()" (
      set_header "referrer-policy" "strict-origin-when-cross-origin" (
        set_header "x-content-type-options" "nosniff"
          (set_header "x-frame-options" "DENY" headers))))

-- What the requests' log shows.
pub data LogError : Type 0 where
  no_error : LogError
  with_traceback : (type_name : String) → LogError
  with_detail : (type_name : String) (error_detail : List ℕ) → LogError

pub record RequestLog : Type 0 where
  pub event : String
  pub request_id : String
  pub user_id : Option String
  pub request_method : String
  pub request_path : String
  pub client_ip : List ℕ
  pub duration_ms : ℕ
  pub status : Option ℕ
  pub error : LogError

pub record Surroundings : Type 0 where
  pub uuid4 : String
  pub elapsed_ms : ℕ
  pub strip : List ℕ → List ℕ
  pub decode_token_unverified : List ℕ → Option String
  pub console_encodes : Bool

abbrev pub before_comma : List ℕ → List ℕ
before_comma [] = []
before_comma (c ∷ cs) = let rest = before_comma cs in if c == 44 then [] else c ∷ rest

abbrev pub direct_ip : Option (List ℕ) → List ℕ
direct_ip none = codes "unknown"
direct_ip (some host) = host

abbrev pub forwarded_ip : Surroundings → Request → List ℕ
forwarded_ip w request = elim request.x_forwarded_for [
  | none ↦ direct_ip request.client_host
  | some [] ↦ direct_ip request.client_host
  | some (c ∷ cs) ↦ w.strip (before_comma (c ∷ cs))
]

abbrev pub get_client_ip : Surroundings → Request → List ℕ
get_client_ip w request = elim request.x_real_ip [
  | none ↦ forwarded_ip w request
  | some [] ↦ forwarded_ip w request
  | some (c ∷ cs) ↦ w.strip (c ∷ cs)
]

abbrev pub after_prefix : List ℕ → List ℕ → Option (List ℕ)
after_prefix [] text = some text
after_prefix (p ∷ ps) [] = none
after_prefix (p ∷ ps) (c ∷ cs) = let rest = after_prefix ps cs in if p == c then rest else none

abbrev pub extract_user_id : Surroundings → Request → Option String
extract_user_id w request = elim request.authorization [
  | none ↦ none
  | some header ↦ elim (after_prefix (codes "Bearer ") header) [
    | none ↦ none
    | some token ↦ w.decode_token_unverified (w.strip token)
  ]
]

-- `if user_id:`, for the text of an identifier.
abbrev pub bound_user : Option String → Option String
bound_user none = none
bound_user (some user_id) = if str_eq user_id "" then none else some user_id

-- `SecurityHeadersMiddleware.dispatch`
abbrev pub secure : {E : Type 0} → Request → Result E Response → Result E Response
secure request (ok response) = ok (record response { headers = secured request response.headers })
secure request (err e) = err e

module _ {E : Type 0} (type_name : E → String) (detail : E → List ℕ) where
  abbrev pub request_log : Surroundings → Request → Result E Response → RequestLog
  request_log w request (ok response) = record {
    event = "request.completed";
    request_id = w.uuid4;
    user_id = bound_user (extract_user_id w request);
    request_method = request.method;
    request_path = request.path;
    client_ip = get_client_ip w request;
    duration_ms = w.elapsed_ms;
    status = some response.status_code;
    error = no_error;
  }
  request_log w request (err e) = record {
    event = "request.error";
    request_id = w.uuid4;
    user_id = bound_user (extract_user_id w request);
    request_method = request.method;
    request_path = request.path;
    client_ip = get_client_ip w request;
    duration_ms = w.elapsed_ms;
    status = none;
    error =
        if w.console_encodes
        then with_traceback (type_name e)
        else with_detail (type_name e) (take 200 (detail e));
  }

  -- `RequestLoggingMiddleware.dispatch`: its outcome, and what it logs.
  abbrev pub logged : Surroundings → Request → Result E Response → Result E Response × RequestLog
  logged w request (ok response) = (
    ok (record response { headers = set_header "x-request-id" w.uuid4 response.headers }),
    request_log w request (ok response),
  )
  logged w request (err e) = (err e, request_log w request (err e))

  -- The stack around a handler.
  unfoldable pub dispatch :
      {S : Type 0}
      → Surroundings
      → Request
      → (S → Result E Response × S)
      → S
      → (Result E Response × RequestLog) × S
  dispatch w request call_next s =
      (logged w request (secure request (call_next s).0), (call_next s).1)
