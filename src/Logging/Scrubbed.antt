-- ===== src/Logging/Scrubbed.antt =====
-- What a log entry holds when it is rendered (backend/app/utils/logging.py).
use pdftalk.Prelude.{
  sym, ap, ◌∙◌, Option-cases, inl, inr, Bool-cases, String, ◌≡◌, refl, Option, none, some, [], ◌∷◌,
  ◌++◌, arith, eq_iff, if◌then◌else◌, str_eq,
}
use pdftalk.Logging.{
  copy_fields, copy_stdlib_extras, shared_processors, copy_field, EventDict, get_key, is_private,
  Structlog, is_scrubbed, scrub_pii,
}

abbrev pub or_else : {V : Type 0} → Option V → Option V → Option V
or_else none b = b
or_else (some v) b = some v

module _ {V : Type 0} (log : Structlog V) where
  -- What a key shows: its value, or the redacted text.
  abbrev pub shown : String → Option V → Option V
  shown key none = none
  shown key (some v) = some (if is_scrubbed log key then log.redacted else v)

  get_key-scrub_pii :
      (key : String) (event : EventDict V)
      → get_key key (scrub_pii log event) ≡ shown key (get_key key event)
  unfolding scrub_pii
  get_key-scrub_pii key [] = refl
  get_key-scrub_pii key ((k, v) ∷ rest) = ground (arith, eq_iff k key, get_key-scrub_pii key rest)

  get_key-append :
      (key k : String) (v : V) (event : EventDict V)
      → get_key key (event ++ (k, v) ∷ [])
        ≡ or_else (get_key key event) (if str_eq k key then some v else none)
  get_key-append key k v [] = refl
  get_key-append key k v ((j, w) ∷ rest) = ground (arith, get_key-append key k v rest)

  -- What a field of the record adds under a key.
  abbrev pub extra : String → EventDict V → Option V
  extra key fields = if is_private key then none else get_key key fields

  or_else_assoc : (a b d : Option V) → or_else (or_else a b) d ≡ or_else a (or_else b d)
  or_else_assoc none b d = refl
  or_else_assoc (some v) b d = refl

  or_else-none : (a : Option V) → or_else a none ≡ a
  or_else-none none = refl
  or_else-none (some v) = refl

  -- One field, where the entry has it already and where it does not.
  get_key-copy_field :
      (key k : String) (v : V) (event : EventDict V)
      → get_key key (copy_field log event k v)
        ≡ or_else (get_key key event) (if str_eq k key then extra key ((k, v) ∷ []) else none)
  get_key-copy_field key k v event = elim (Bool-cases (str_eq k key)) [
    | inl same ↦
        let e : k ≡ key = (eq_iff k key).0 same in
        ground (arith, eq_iff k key, get_key-append key k v event)
    | inr other ↦
        ground (arith, eq_iff k key, get_key-append key k v event, or_else-none (get_key key event))
  ]

  extra_cons :
      (key k : String) (v : V) (rest : EventDict V)
      → or_else (if str_eq k key then extra key ((k, v) ∷ []) else none) (extra key rest)
        ≡ extra key ((k, v) ∷ rest)
  extra_cons key k v rest = ground (arith, eq_iff k key)

  get_key-copy_fields :
      (key : String) (fields event : EventDict V)
      → get_key key (copy_fields log fields event) ≡ or_else (get_key key event) (extra key fields)
  unfolding copy_fields
  get_key-copy_fields key [] event = sym (ground (arith, or_else-none (get_key key event)))
  get_key-copy_fields key ((k, v) ∷ rest) event =
      get_key-copy_fields key rest (copy_field log event k v)
      ∙ (ap (λ (x : Option V). or_else x (extra key rest)) (get_key-copy_field key k v event)
          ∙ (or_else_assoc (get_key key event)
                (if str_eq k key then extra key ((k, v) ∷ []) else none) (extra key rest)
              ∙ ap (or_else (get_key key event)) (extra_cons key k v rest)))

  -- What the entry holds under a key before anything is redacted: its own value, or else that of
  -- the record's field of this name, if the name is not private.
  abbrev pub merged : String → EventDict V → Option V
  merged key event =
      or_else (get_key key event)
        (elim (get_key "record" event) [ none ↦ none | some r ↦ extra key (log.fields r) ])

  get_key-copy_stdlib_extras :
      (key : String) (event : EventDict V)
      → get_key key (copy_stdlib_extras log event) ≡ merged key event
  unfolding copy_stdlib_extras
  get_key-copy_stdlib_extras key event = elim (Option-cases (get_key "record" event)) [
    | inl missing ↦ rw (missing, copy_stdlib_extras) (sym (or_else-none (get_key key event)))
    | inr (r, found) ↦ rw (found, copy_stdlib_extras) (get_key-copy_fields key (log.fields r) event)
  ]

  -- After the processors every key of an entry shows its value, or that of the record's public field
  -- where the entry has none; under a key that is, in lower case, on the list of sensitive keys, it
  -- shows the redacted text, whichever of the two the value came from.
  pub get_key-shared_processors :
      (key : String) (event : EventDict V)
      → get_key key (shared_processors log event) ≡ shown key (merged key (log.first event))
  unfolding shared_processors
  get_key-shared_processors key event =
      get_key-scrub_pii key (copy_stdlib_extras log (log.first event))
      ∙ ap (shown key) (get_key-copy_stdlib_extras key (log.first event))
