-- ===== src/Middleware/Headers.antt =====
-- What the middleware does to a response (backend/app/middleware/logging.py, security.py).
use pdftalk.Prelude.{
  ℕ, String, ◌≡◌, refl, sym, ◌∙◌, inl, inr, true, false, some, arith, Bool-cases, List, [], ◌∷◌,
  str_eq, eq_iff,
}
use pdftalk.Prelude.Action.{Result, ok, err}
use pdftalk.Logging.{get_key}
use pdftalk.Middleware.{
  Headers, without, set_header, Response, Request, Surroundings, RequestLog, request_log, secured,
  dispatch, policy_for,
}
use mathlib.Core.Path.{subst}

get_key-set_header :
    (key v : String) (hs : Headers)
    → str_eq key key ≡ true
    → get_key key (set_header key v hs) ≡ some v
get_key-set_header key v [] same = rw same refl
get_key-set_header key v ((k, w) ∷ hs) same = elim (Bool-cases (str_eq k key)) [
  | inl hit ↦ rw (hit, hit) refl
  | inr miss ↦ rw (miss, miss) (get_key-set_header key v hs same)
]

get_key-without :
    (key other : String) (hs : Headers)
    → ((k : String) → str_eq k key ≡ true → str_eq k other ≡ false)
    → get_key other (without key hs) ≡ get_key other hs
get_key-without key other [] apart = refl
get_key-without key other ((k, w) ∷ hs) apart = elim (Bool-cases (str_eq k key)) [
  | inl hit ↦ rw (hit, apart k hit) (get_key-without key other hs apart)
  | inr miss ↦ ground (arith, miss, get_key-without key other hs apart)
]

get_key-set_other :
    (key v other : String) (hs : Headers)
    → str_eq key other ≡ false
    → get_key other (set_header key v hs) ≡ get_key other hs
get_key-set_other key v other [] far = rw far refl
get_key-set_other key v other ((k, w) ∷ hs) far = elim (Bool-cases (str_eq k key)) [
  | inl hit ↦
      let apart : (j : String) → str_eq j key ≡ true → str_eq j other ≡ false =
        λ j e. subst (λ x. str_eq x other ≡ false) (sym ((eq_iff j key).0 e)) far in
      ground (arith, hit, far, apart k hit, get_key-without key other hs apart)
  | inr miss ↦ ground (arith, miss, get_key-set_other key v other hs far)
]

-- A header that the middleware does not set.
abbrev IsOther : String → Type 0
IsOther name =
    (str_eq "x-frame-options" name ≡ false)
    × (str_eq "x-content-type-options" name ≡ false)
    × (str_eq "referrer-policy" name ≡ false)
    × (str_eq "permissions-policy" name ≡ false)
    × (str_eq "content-security-policy" name ≡ false)
    × (str_eq "x-request-id" name ≡ false)

secured_frame :
    (request : Request) (hs : Headers)
    → get_key "x-frame-options" (secured request hs) ≡ some "DENY"
secured_frame request hs =
    let h1 = set_header "x-frame-options" "DENY" hs in
    let h2 = set_header "x-content-type-options" "nosniff" h1 in
    let h3 = set_header "referrer-policy" "strict-origin-when-cross-origin" h2 in
    let h4 = set_header "permissions-policy" "camera=(), microphone=(), geolocation=()" h3 in
    get_key-set_other "content-security-policy" (policy_for request.path) "x-frame-options" h4 refl
    ∙ (get_key-set_other "permissions-policy" "camera=(), microphone=(), geolocation=()"
          "x-frame-options" h3 refl
        ∙ (get_key-set_other "referrer-policy" "strict-origin-when-cross-origin" "x-frame-options"
              h2 refl
            ∙ (get_key-set_other "x-content-type-options" "nosniff" "x-frame-options" h1 refl
                ∙ get_key-set_header "x-frame-options" "DENY" hs refl)))

secured_other :
    (request : Request) (name : String) (hs : Headers)
    → IsOther name
    → get_key name (secured request hs) ≡ get_key name hs
secured_other request name hs (frame, content, referrer, permissions, csp, id) =
    let h1 = set_header "x-frame-options" "DENY" hs in
    let h2 = set_header "x-content-type-options" "nosniff" h1 in
    let h3 = set_header "referrer-policy" "strict-origin-when-cross-origin" h2 in
    let h4 = set_header "permissions-policy" "camera=(), microphone=(), geolocation=()" h3 in
    get_key-set_other "content-security-policy" (policy_for request.path) name h4 csp
    ∙ (get_key-set_other "permissions-policy" "camera=(), microphone=(), geolocation=()" name h3
          permissions
        ∙ (get_key-set_other "referrer-policy" "strict-origin-when-cross-origin" name h2 referrer
            ∙ (get_key-set_other "x-content-type-options" "nosniff" name h1 content
                ∙ get_key-set_other "x-frame-options" "DENY" name hs frame)))

module _ {S E : Type 0} (type_name : E → String) (detail : E → List ℕ) where
  -- A response passes with its status and its headers, and is given the security headers and the
  -- identifier that its one log entry has.
  pub dispatch_ok :
      (w : Surroundings) (request : Request) (call_next : S → Result E Response × S) (s t : S)
      (response : Response)
      → call_next s ≡ (ok response, t)
      → (out : Response) × (entry : RequestLog) × (dispatch type_name detail w request call_next s
          ≡ ((ok out, entry), t))
        × (out.status_code ≡ response.status_code)
        × (get_key "x-request-id" out.headers ≡ some entry.request_id)
        × (entry.status ≡ some out.status_code)
        × (get_key "x-frame-options" out.headers ≡ some "DENY")
        × (get_key "content-security-policy" out.headers ≡ some (policy_for request.path))
        × ((name : String)
            → IsOther name
            → get_key name out.headers ≡ get_key name response.headers)
  unfolding dispatch
  dispatch_ok w request call_next s t response answered =
      let hs = response.headers in
      let safe = secured request hs in
      let out = record response { headers = set_header "x-request-id" w.uuid4 safe } in
      let entry =
        request_log type_name detail w request (ok (record response { headers = safe })) in
      let h4 = set_header "permissions-policy" "camera=(), microphone=(), geolocation=()" (
        set_header "referrer-policy" "strict-origin-when-cross-origin" (
          set_header "x-content-type-options" "nosniff"
            (set_header "x-frame-options" "DENY" hs))) in
      (
        out,
        entry,
        rw (answered, dispatch) refl,
        refl,
        get_key-set_header "x-request-id" w.uuid4 safe refl,
        refl,
        get_key-set_other "x-request-id" w.uuid4 "x-frame-options" safe refl
            ∙ secured_frame request hs,
        get_key-set_other "x-request-id" w.uuid4 "content-security-policy" safe refl
            ∙ get_key-set_header "content-security-policy" (policy_for request.path) h4 refl,
        λ name other.
            let (frame, content, referrer, permissions, csp, id) = other in
            get_key-set_other "x-request-id" w.uuid4 name safe id
            ∙ secured_other request name hs other,
      )

  -- An exception passes as it is, and what is logged of it has its type.
  pub dispatch_err :
      (w : Surroundings) (request : Request) (call_next : S → Result E Response × S) (s t : S)
      (e : E)
      → call_next s ≡ (err e, t)
      → dispatch type_name detail w request call_next s
        ≡ ((err e, request_log type_name detail w request (err e)), t)
  unfolding dispatch
  dispatch_err w request call_next s t e raised = rw (raised, dispatch) refl
