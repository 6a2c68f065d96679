-- ===== src/Auth/Strength.antt =====
-- backend/app/models/auth.py: the rule for a new password, which the registration and the reset
-- request share. `\d` matches every decimal digit of Unicode, which is an argument.
use pdftalk.Prelude.{
  sym, ℕ, ◌≤◌, ◌≡◌, refl, ap, ◌↔◌, inl, inr, Bool, true, false, not, ◌&&◌, ◌||◌, List, [], ◌∷◌,
  ◌++◌, arith, ltb, leb, ◌==◌, if◌then◌else◌, Bool-cases, length,
}
use mathlib.Core.Path.{subst}
use pdftalk.Auth.Rotation.{later}
use pdftalk.Prelude.Action.{Result, ok, err}
use pdftalk.Prelude.Text.{codes}

pub data Weakness : Type 0 where
  too_short no_uppercase no_lowercase no_special no_number : Weakness

abbrev pub is_uppercase : ℕ → Bool
is_uppercase ch = leb 65 ch && leb ch 90

abbrev pub is_lowercase : ℕ → Bool
is_lowercase ch = leb 97 ch && leb ch 122

abbrev pub is_one_of : List ℕ → ℕ → Bool
is_one_of [] ch = false
is_one_of (x ∷ xs) ch = x == ch || is_one_of xs ch

abbrev pub is_special : ℕ → Bool
is_special = is_one_of (codes "!@#$%^&*()_+-=[]{};':\"\\|,.<>/?")

-- `re.search(r"[...]", v)`
unfoldable pub has_match : (ℕ → Bool) → List ℕ → Bool
has_match p [] = false
has_match p (ch ∷ v) = p ch || has_match p v

unfoldable pub validate_password_strength : (ℕ → Bool) → List ℕ → Result Weakness (List ℕ)
validate_password_strength is_decimal v =
    if ltb (length v) 8
    then err too_short
    else if not (has_match is_uppercase v)
    then err no_uppercase
    else if not (has_match is_lowercase v)
    then err no_lowercase
    else if not (has_match is_special v)
    then err no_special
    else if not (has_match is_decimal v)
    then err no_number
    else ok v

-- Some character passes a test.
abbrev Has : (ℕ → Bool) → List ℕ → Type 0
Has p v = (a : List ℕ) × (ch : ℕ) × (b : List ℕ) × (v ≡ a ++ ch ∷ b) × (p ch ≡ true)

has_match-Has : (p : ℕ → Bool) (v : List ℕ) → has_match p v ≡ true → Has p v
unfolding has_match
has_match-Has p [] h = absurd (ground (arith, h))
has_match-Has p (ch ∷ v) h = elim (Bool-cases (p ch)) [
  | inl here ↦ ([], ch, v, refl, here)
  | inr later ↦
      let (a, x, b, e, t) = has_match-Has p v (ground (arith, h, later)) in
      (ch ∷ a, x, b, ap (◌∷◌ ch) e, t)
]

Has-has_match :
    (p : ℕ → Bool) (a : List ℕ) (ch : ℕ) (b : List ℕ)
    → p ch ≡ true
    → has_match p (a ++ ch ∷ b) ≡ true
unfolding has_match
Has-has_match p [] ch b h = ground (arith, h)
Has-has_match p (x ∷ a) ch b h = ground (arith, Has-has_match p a ch b h)

Has-test : (p : ℕ → Bool) (v : List ℕ) → Has p v → has_match p v ≡ true
Has-test p v (a, ch, b, e, h) =
    subst (λ (x : List ℕ). has_match p x ≡ true) (sym e) (Has-has_match p a ch b h)

-- The five tests that an accepted password passes.
abbrev Passes : (ℕ → Bool) → List ℕ → Type 0
Passes is_decimal v =
    (ltb (length v) 8 ≡ false)
    × (has_match is_uppercase v ≡ true)
    × (has_match is_lowercase v ≡ true)
    × (has_match is_special v ≡ true)
    × (has_match is_decimal v ≡ true)

accepted_tests :
    (is_decimal : ℕ → Bool) (v : List ℕ)
    → validate_password_strength is_decimal v ≡ ok v
    → Passes is_decimal v
unfolding validate_password_strength
accepted_tests is_decimal v h = ground (arith, h)

tests_accept :
    (is_decimal : ℕ → Bool) (v : List ℕ)
    → Passes is_decimal v
    → validate_password_strength is_decimal v ≡ ok v
unfolding validate_password_strength
tests_accept is_decimal v (long, upper, lower, special, number) =
    rw long (rw upper (rw lower (rw special (rw number refl))))

-- A new password is accepted as it is exactly when it has at least 8 characters, and a capital, a small
-- letter, a special character and a digit among them.
validate_password_strength_iff :
    (is_decimal : ℕ → Bool) (v : List ℕ)
    → (validate_password_strength is_decimal v ≡ ok v) ↔ (
        (8 ≤ length v)
        × Has is_uppercase v
        × Has is_lowercase v
        × Has is_special v
        × Has is_decimal v)
validate_password_strength_iff is_decimal v = (
  λ h.
      let (long, upper, lower, special, number) = accepted_tests is_decimal v h in
      (
        ground (arith, long),
        has_match-Has is_uppercase v upper,
        has_match-Has is_lowercase v lower,
        has_match-Has is_special v special,
        has_match-Has is_decimal v number,
      ),
  λ (long, upper, lower, special, number). tests_accept is_decimal v (
    ground (arith, long),
    Has-test is_uppercase v upper,
    Has-test is_lowercase v lower,
    Has-test is_special v special,
    Has-test is_decimal v number,
  ),
)
