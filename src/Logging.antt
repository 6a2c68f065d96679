-- ===== src/Logging.antt =====
-- backend/app/utils/logging.py: the processors that every log entry passes before it is rendered.
-- structlog's own processors, `str.lower` and the fields of a stdlib record are arguments.
pub mod Scrubbed
use pdftalk.Prelude.{
  String, Bool, true, false, not, ◌&&◌, ◌||◌, Option, none, some, List, [], ◌∷◌, ◌++◌, ◌==◌,
  if◌then◌else◌, str_eq,
}
use Prim.Native.Char.{code}

-- An `event_dict`, in the order of insertion.
abbrev pub EventDict : Type 0 → Type 0
EventDict V = List (String × V)

abbrev pub get_key : {V : Type 0} → String → EventDict V → Option V
get_key key [] = none
get_key key ((k, v) ∷ rest) = if str_eq k key then some v else get_key key rest

abbrev pub has_key : {V : Type 0} → String → EventDict V → Bool
has_key key event = elim (get_key key event) [ none ↦ false | some v ↦ true ]

-- `_SCRUBBED_KEYS`
abbrev pub scrubbed_keys : List String
scrubbed_keys =
    "password" ∷ "password_hash" ∷ "token" ∷ "access_token" ∷ "refresh_token" ∷ "token_hash"
    ∷ "email" ∷ "email_lower" ∷ "authorization" ∷ "content" ∷ "text" ∷ "secret" ∷ "api_key"
    ∷ "openai_api_key" ∷ []

abbrev pub is_among : List String → String → Bool
is_among [] key = false
is_among (k ∷ keys) key = str_eq k key || is_among keys key

-- `key.startswith("_")`
abbrev pub is_private : String → Bool
is_private String.[] = false
is_private (String.◌∷◌ c s) = code c == 95

-- What the processors need from outside: the values with the text that stands for a redacted one,
-- `lower`, the `__dict__` of a record, and structlog's processors that come first.
pub record Structlog (V : Type 0) : Type 0 where
  pub redacted : V
  pub lower : String → String
  pub fields : V → EventDict V
  pub first : EventDict V → EventDict V

module _ {V : Type 0} (log : Structlog V) where
  unfoldable pub is_scrubbed : String → Bool
  is_scrubbed key = is_among scrubbed_keys (log.lower key)

  -- `_scrub_pii`
  unfoldable pub scrub_pii : EventDict V → EventDict V
  unfolding is_scrubbed
  scrub_pii [] = []
  scrub_pii ((k, v) ∷ rest) = (k, if is_scrubbed k then log.redacted else v) ∷ scrub_pii rest

  -- `if key not in event_dict and not key.startswith("_"): event_dict[key] = value`
  abbrev pub copy_field : EventDict V → String → V → EventDict V
  copy_field event k v =
      if not (has_key k event) && not (is_private k) then event ++ (k, v) ∷ [] else event

  unfoldable pub copy_fields : EventDict V → EventDict V → EventDict V
  copy_fields [] event = event
  copy_fields ((k, v) ∷ rest) event = copy_fields rest (copy_field event k v)

  -- `_copy_stdlib_extras`
  unfoldable pub copy_stdlib_extras : EventDict V → EventDict V
  unfolding copy_fields
  copy_stdlib_extras event = elim (get_key "record" event) [
    | none ↦ event
    | some r ↦ copy_fields (log.fields r) event
  ]

  -- `shared_processors`, in their order.
  unfoldable pub shared_processors : EventDict V → EventDict V
  unfolding scrub_pii copy_stdlib_extras
  shared_processors event = scrub_pii (copy_stdlib_extras (log.first event))
