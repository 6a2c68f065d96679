-- ===== src/Config/Production.antt =====
-- The settings of a deployment in production (backend/app/core/config.py).
use pdftalk.Prelude.{
  Bool, ◌&&◌, ◌≤◌, length, refl, sym, ap, ◌∙◌, inl, inr, true, false, some, List, [], ◌∷◌, ◌++◌,
  arith, eq_iff, if◌then◌else◌, Bool-cases, Option-cases, All, str_eq, String, ◌≡◌, Option, none,
}
use mathlib.Core.Path.{subst}
use pdftalk.Config.{
  is_environment, required_fields, has_all, is_long_secret, load_settings, is_production,
  setdefault, set_all, dev_defaults, value_or, env_val, set_dev_defaults, environment_of, Values,
}
use mathlib.Core.Bool.{false≢true}
use pdftalk.Logging.{get_key}
use pdftalk.Prelude.Text.{codes}

-- The settings' sources include the process environment: a name that they do not give is not there.
abbrev pub ReadsEnvironment : Option String → Values → Type 0
ReadsEnvironment getenv found = get_key "ENVIRONMENT" found ≡ none → getenv ≡ none

get_key-last :
    (key k v : String) (found : Values)
    → get_key key (found ++ (k, v) ∷ []) ≡ elim (get_key key found) [
      | none ↦ (if str_eq k key then some v else none)
      | some w ↦ some w
    ]
get_key-last key k v [] = refl
get_key-last key k v ((j, w) ∷ found) = ground (arith, get_key-last key k v found)

setdefault_keeps :
    (key k v w : String) (found : Values)
    → get_key key found ≡ some w
    → get_key key (setdefault k v found) ≡ some w
setdefault_keeps key k v w found h = ground (arith, h, get_key-last key k v found)

setdefault_other :
    (key k v : String) (found : Values)
    → str_eq k key ≡ false
    → get_key key (setdefault k v found) ≡ get_key key found
setdefault_other key k v found h = ground (arith, h, get_key-last key k v found)

set_all_keeps :
    (defaults : List (String × String)) (key w : String) (found : Values)
    → get_key key found ≡ some w
    → get_key key (set_all defaults found) ≡ some w
set_all_keeps [] key w found h = h
set_all_keeps ((k, v) ∷ defaults) key w found h =
    set_all_keeps defaults key w (setdefault k v found) (setdefault_keeps key k v w found h)

set_all_other :
    (defaults : List (String × String)) (key : String) (found : Values)
    → All (λ (d : String × String). str_eq d.0 key ≡ false) defaults
    → get_key key (set_all defaults found) ≡ get_key key found
set_all_other [] key found h = refl
set_all_other ((k, v) ∷ defaults) key found h =
    set_all_other defaults key (setdefault k v found) h.1 ∙ setdefault_other key k v found h.0

no_environment : All (λ (d : String × String). str_eq d.0 "ENVIRONMENT" ≡ false) dev_defaults
no_environment = (refl, (refl, (refl, (refl, (refl, (refl, (refl, (refl, (refl, (refl, tt))))))))))

-- Values that are given are not replaced.
set_dev_defaults_keeps :
    (getenv : Option String) (found : Values) (key w : String)
    → get_key key found ≡ some w
    → get_key key (set_dev_defaults getenv found) ≡ some w
unfolding set_dev_defaults
set_dev_defaults_keeps getenv found key w h =
    elim (Bool-cases (str_eq (env_val getenv found) "development")) [
      | inl dev ↦ rw (dev, set_dev_defaults) (set_all_keeps dev_defaults key w found h)
      | inr prod ↦ rw (prod, set_dev_defaults) h
    ]

-- Defaults are set only for settings that say "development".
dev_says_so :
    (getenv : Option String) (found : Values)
    → ReadsEnvironment getenv found
    → str_eq (env_val getenv found) "development" ≡ true
    → environment_of (set_all dev_defaults found) ≡ "development"
dev_says_so getenv found reads dev =
    let same : value_or "production" (get_key "ENVIRONMENT" (set_all dev_defaults found))
        ≡ value_or "production" (get_key "ENVIRONMENT" found) =
      ap (value_or "production") (set_all_other dev_defaults "ENVIRONMENT" found no_environment) in
    elim (Option-cases (get_key "ENVIRONMENT" found)) [
      | inl absent ↦
          let e : env_val getenv found ≡ "production" =
            ap (λ o. value_or (value_or "production" getenv) o) absent
            ∙ ap (value_or "production") (reads absent) in
          absurd (false≢true ((sym (ap (λ x. str_eq x "development") e)) ∙ dev))
      | inr (v, given) ↦
          let e : env_val getenv found ≡ v = ap (value_or (value_or "production" getenv)) given in
          same
          ∙ (ap (value_or "production") given
              ∙ (sym e ∙ (eq_iff (env_val getenv found) "development").0 dev))
    ]

abbrev pub IsGiven : Values → String → Type 0
IsGiven found key = (v : String) × (get_key key found ≡ some v)

has_all-IsGiven :
    (keys : List String) (found : Values) → has_all keys found ≡ true → All (IsGiven found) keys
unfolding has_all
has_all-IsGiven [] found h = tt
has_all-IsGiven (k ∷ keys) found h = elim (Option-cases (get_key k found)) [
  | inl absent ↦ absurd (ground (arith, absent, h))
  | inr (v, given) ↦ ((v, given), has_all-IsGiven keys found (rw (given, has_all) at h))
]

-- What settings that load have passed.
record HasLoaded (getenv : Option String) (found settings : Values) : Type 0 where
  same : settings ≡ set_dev_defaults getenv found
  complete_ : has_all required_fields settings ≡ true
  long : is_long_secret (value_or "" (get_key "JWT_SECRET_KEY" settings)) ≡ true

guarded_some :
    (a b c : Bool) (x y : Values)
    → (if a && (b && c) then some x else none) ≡ some y
    → (y ≡ x) × (a ≡ true) × (b ≡ true)
guarded_some true true true x y h = (cc, refl, refl)
guarded_some true true false x y h = absurd (ground (arith, h))
guarded_some true false c x y h = absurd (ground (arith, h))
guarded_some false b c x y h = absurd (ground (arith, h))

loaded :
    (getenv : Option String) (found settings : Values)
    → load_settings getenv found ≡ some settings
    → HasLoaded getenv found settings
unfolding load_settings
loaded getenv found settings h =
    let filled = set_dev_defaults getenv found in
    let (same, all, long) =
      guarded_some (has_all required_fields filled)
        (is_long_secret (value_or "" (get_key "JWT_SECRET_KEY" filled)))
        (is_environment (environment_of filled)) filled settings h in
    record {
      same = same;
      complete_ = ap (has_all required_fields) same ∙ all;
      long =
          ap (λ (x : Values). is_long_secret (value_or "" (get_key "JWT_SECRET_KEY" x))) same
          ∙ long;
    }

unfilled :
    (getenv : Option String) (found : Values)
    → ReadsEnvironment getenv found
    → is_production (set_dev_defaults getenv found) ≡ true
    → set_dev_defaults getenv found ≡ found
unfolding set_dev_defaults
unfilled getenv found reads p = elim (Bool-cases (str_eq (env_val getenv found) "development")) [
  | inl dev ↦
      let says : is_production (set_all dev_defaults found) ≡ false =
        ap (λ x. str_eq x "production") (dev_says_so getenv found reads dev) in
      absurd (false≢true (sym says ∙ (rw (dev, set_dev_defaults) at p)))
  | inr other ↦ rw (other, set_dev_defaults) refl
]

long_secret : (v : String) → is_long_secret v ≡ true → 32 ≤ length (codes v)
long_secret v h = ground (arith, h)

-- Settings that load keep every value that was given. In production they are exactly the given ones:
-- none of the development defaults is among them, every required field was given, and the key that
-- signs the tokens was given with at least 32 characters.
pub load_settings_production :
    (getenv : Option String) (found settings : Values)
    → ReadsEnvironment getenv found
    → load_settings getenv found ≡ some settings
    → ((key w : String) → get_key key found ≡ some w → get_key key settings ≡ some w)
      × (is_production settings ≡ true
          → (settings ≡ found)
            × All (IsGiven found) required_fields
            × (secret : String) × (get_key "JWT_SECRET_KEY" found ≡ some secret)
            × (32 ≤ length (codes secret)))
load_settings_production getenv found settings reads h =
    let l = loaded getenv found settings h in
    (
      λ key w g.
          subst (λ (x : Values). get_key key x ≡ some w) (sym l.same)
            (set_dev_defaults_keeps getenv found key w g),
      λ p.
          let same : settings ≡ found =
            l.same ∙ unfilled getenv found reads (ap is_production (sym l.same) ∙ p) in
          let given =
            subst (λ (x : Values). All (IsGiven x) required_fields) same
              (has_all-IsGiven required_fields settings l.complete_) in
          let (secret, g) = given.1.1.0 in
          let long =
            subst (λ (x : Values). is_long_secret (value_or "" (get_key "JWT_SECRET_KEY" x)) ≡ true)
              same l.long in
          (
            same,
            given,
            secret,
            g,
            long_secret secret (sym (ap (λ o. is_long_secret (value_or "" o)) g) ∙ long),
          ),
    )
