-- ===== src/Prelude/Action.antt =====
-- Methods that change a state and may raise. What was written before a raise stays written, so the
-- state comes back beside the error.

use mathlib.Core.Bool.{Bool}
use mathlib.Core.Option.{Option, none, some}
use mathlib.Core.Path.{◌≡◌, refl, ap}
use mathlib.Core.Logic.{◌⊎◌, inl, inr}
use pdftalk.Prelude.Tests.{if◌then◌else◌}

pub data Result (E A : Type 0) : Type 0 where
  ok : A → Result E A
  err : E → Result E A

abbrev pub Action : Type 0 → Type 0 → Type 0 → Type 0
Action S E A = S → Result E A × S

module _ {S E A : Type 0} where
  abbrev pub pure : A → Action S E A
  pure a s = (ok a, s)

  abbrev pub raise : E → Action S E A
  raise e s = (err e, s)

  abbrev pub gets : (S → A) → Action S E A
  gets f s = (ok (f s), s)

  abbrev pub or_raise : Option A → E → Action S E A
  or_raise none e = raise e
  or_raise (some a) e = pure a

module _ {S E : Type 0} where
  abbrev pub modify : (S → S) → Action S E (Unit {0})
  modify f s = (ok tt, f s)

  abbrev pub raise_if : Bool → E → Action S E (Unit {0})
  raise_if c e s = (if c then err e else ok tt, s)

infixl 5 ◌>>=◌ ◌>>◌
abbrev pub ◌>>=◌ : {S E A B : Type 0} → Action S E A → (A → Action S E B) → Action S E B
◌>>=◌ m f s = let (r, s') = m s in elim r [ ok a ↦ f a s' | err e ↦ raise e s' ]

abbrev pub ◌>>◌ : {S E A B : Type 0} → Action S E A → Action S E B → Action S E B
m >> k = m >>= λ _. k

-- `try: m  except e: handler e`
abbrev pub catch : {S E A : Type 0} → Action S E A → (E → Action S E A) → Action S E A
catch m handler s = let (r, s') = m s in elim r [ ok a ↦ pure a s' | err e ↦ handler e s' ]

pub Result-cases :
    {E A : Type 0} (r : Result E A) → ((e : E) × (r ≡ err e)) ⊎ ((a : A) × (r ≡ ok a))
Result-cases (ok a) = inr (a, refl)
Result-cases (err e) = inl (e, refl)

-- How a chain goes on after a step whose outcome is known.
module _ {S E A B : Type 0} (m : Action S E A) (k : A → Action S E B) (s t : S) where
  pub bind_ok : (a : A) → m s ≡ (ok a, t) → (m >>= k) s ≡ k a t
  bind_ok a h = ap (λ (p : Result E A × S). elim p.0 [ ok a ↦ k a p.1 | err e ↦ raise e p.1 ]) h

  pub bind_err : (e : E) → m s ≡ (err e, t) → (m >>= k) s ≡ (err e, t)
  bind_err e h = ap (λ (p : Result E A × S). elim p.0 [ ok a ↦ k a p.1 | err e ↦ raise e p.1 ]) h

module _ {S E A : Type 0} (m : Action S E A) (handler : E → Action S E A) (s t : S) where
  pub catch_ok : (a : A) → m s ≡ (ok a, t) → catch m handler s ≡ (ok a, t)
  catch_ok a h =
      ap (λ (p : Result E A × S). elim p.0 [ ok a ↦ pure a p.1 | err e ↦ handler e p.1 ]) h

  pub catch_err : (e : E) → m s ≡ (err e, t) → catch m handler s ≡ handler e t
  catch_err e h =
      ap (λ (p : Result E A × S). elim p.0 [ ok a ↦ pure a p.1 | err e ↦ handler e p.1 ]) h

-- Two steps with one outcome go on alike.
module _ {S E A B : Type 0} (m n : Action S E A) (k : A → Action S E B) (s t : S) where
  pub bind_as : m s ≡ n t → (m >>= k) s ≡ (n >>= k) t
  bind_as h = ap (λ (p : Result E A × S). elim p.0 [ ok a ↦ k a p.1 | err e ↦ raise e p.1 ]) h

module _ {S E A : Type 0} (m n : Action S E A) (handler : E → Action S E A) (s t : S) where
  pub catch_as : m s ≡ n t → catch m handler s ≡ catch n handler t
  catch_as h = ap (λ (p : Result E A × S). elim p.0 [ ok a ↦ pure a p.1 | err e ↦ handler e p.1 ]) h
