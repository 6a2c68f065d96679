-- ===== src/Prelude/Sorting.antt =====
-- Python's `sort(key=...)` and SQL's `ORDER BY`: a stable sort by a number, as insertion.
use pdftalk.Prelude.Lists.{All-take, take, All}
use Prim.Native.Nat.{zero, suc, ℕ, ◌≤◌, ◌<◌}
use pdftalk.Prelude.{zero, suc, take, false, inl, inr, true, Bool-cases, All-map}
use mathlib.Core.Path.{◌≡◌, refl, ap}
use mathlib.Core.Bool.{Bool}
use mathlib.Core.List.{List, [], ◌∷◌, ◌++◌}
use native.Mathlib.Omega.{arith}
use pdftalk.Prelude.Tests.{leb, ltb, if◌then◌else◌}
use pdftalk.Prelude.Table.{count, select, delete}

module _ {A : Type 0} (key : A → ℕ) where
  abbrev pub insert_by : A → List A → List A
  insert_by x [] = x ∷ []
  insert_by x (y ∷ ys) =
      let rest = insert_by x ys in if leb (key x) (key y) then x ∷ y ∷ ys else y ∷ rest

  abbrev pub sort_by : List A → List A
  sort_by [] = []
  sort_by (x ∷ xs) = insert_by x (sort_by xs)

  -- No later element has a smaller key.
  abbrev pub Sorted : List A → Type 0
  Sorted [] = Unit {0}
  Sorted (x ∷ xs) = All (λ y. key x ≤ key y) xs × Sorted xs

module _ {A : Type 0} (key : A → ℕ) (P : A → Type 0) where
  pub All-insert_by : (x : A) (ys : List A) → P x → All P ys → All P (insert_by key x ys)
  All-insert_by x [] h hs = (h, tt)
  All-insert_by x (y ∷ ys) h hs = elim (Bool-cases (leb (key x) (key y))) [
    | inl first ↦ rw first (h, hs)
    | inr later ↦ rw later (hs.0, All-insert_by x ys h hs.1)
  ]

  pub All-sort_by : (xs : List A) → All P xs → All P (sort_by key xs)
  All-sort_by [] hs = tt
  All-sort_by (x ∷ xs) hs = All-insert_by x (sort_by key xs) hs.0 (All-sort_by xs hs.1)

module _ {A : Type 0} (P : A → Type 0) (p : A → Bool) where
  pub All-select : (xs : List A) → All P xs → All P (select p xs)
  All-select [] h = tt
  All-select (x ∷ xs) h = elim (Bool-cases (p x)) [
    | inl yes_p ↦ rw yes_p (h.0, All-select xs h.1)
    | inr no_p ↦ rw no_p (All-select xs h.1)
  ]

module _ {A : Type 0} (key : A → ℕ) where
  below : (x y z : A) → leb (key x) (key y) ≡ true → key y ≤ key z → key x ≤ key z
  below x y z first h = ground arith

  insert_by-Sorted : (x : A) (ys : List A) → Sorted key ys → Sorted key (insert_by key x ys)
  insert_by-Sorted x [] s = (tt, tt)
  insert_by-Sorted x (y ∷ ys) s = elim (Bool-cases (leb (key x) (key y))) [
    | inl first ↦ rw first ((ground arith, All-map ys (λ z h. below x y z first h) s.0), s)
    | inr later ↦
        rw later (
          All-insert_by key (λ z. key y ≤ key z) x ys (ground arith) s.0,
          insert_by-Sorted x ys s.1,
        )
  ]

  pub sort_by-Sorted : (xs : List A) → Sorted key (sort_by key xs)
  sort_by-Sorted [] = tt
  sort_by-Sorted (x ∷ xs) = insert_by-Sorted x (sort_by key xs) (sort_by-Sorted xs)

  pub take-Sorted : (n : ℕ) (xs : List A) → Sorted key xs → Sorted key (take n xs)
  take-Sorted zero xs s = tt
  take-Sorted (suc n) [] s = tt
  take-Sorted (suc n) (x ∷ xs) s = (All-take (λ y. key x ≤ key y) n xs s.0, take-Sorted n xs s.1)

  count-insert_by :
      (p : A → Bool) (x : A) (ys : List A) → count p (insert_by key x ys) ≡ count p (x ∷ ys)
  count-insert_by p x [] = refl
  count-insert_by p x (y ∷ ys) = ground (arith, count-insert_by p x ys)

  -- Sorting keeps what is there.
  pub count-sort_by : (p : A → Bool) (xs : List A) → count p (sort_by key xs) ≡ count p xs
  count-sort_by p [] = refl
  count-sort_by p (x ∷ xs) =
      ground (arith, count-insert_by p x (sort_by key xs), count-sort_by p xs)

-- A sorted list is its elements below a bound, then the others.
module _ {A : Type 0} (key : A → ℕ) (t : ℕ) where
  abbrev pub is_below : A → Bool
  is_below x = ltb (key x) t

  insert_by-first :
      (x : A) (xs ys : List A)
      → is_below x ≡ true
      → All (λ y. t ≤ key y) ys
      → insert_by key x (xs ++ ys) ≡ insert_by key x xs ++ ys
  insert_by-first x [] [] h hs = refl
  insert_by-first x [] (y ∷ ys) h hs = ground (arith, hs.0)
  insert_by-first x (z ∷ xs) ys h hs = elim (Bool-cases (leb (key x) (key z))) [
    | inl first ↦ rw first refl
    | inr later ↦ rw later (ap (◌∷◌ z) (insert_by-first x xs ys h hs))
  ]

  later_than : (x z : A) → is_below x ≡ false → key z < t → leb (key x) (key z) ≡ false
  later_than x z h hz = ground arith

  insert_by-last :
      (x : A) (xs ys : List A)
      → is_below x ≡ false
      → All (λ y. key y < t) xs
      → insert_by key x (xs ++ ys) ≡ xs ++ insert_by key x ys
  insert_by-last x [] ys h hs = refl
  insert_by-last x (z ∷ xs) ys h hs =
      rw (later_than x z h hs.0) (ap (◌∷◌ z) (insert_by-last x xs ys h hs.1))

  pub All-select_below : (xs : List A) → All (λ x. key x < t) (select is_below xs)
  All-select_below [] = tt
  All-select_below (x ∷ xs) = elim (Bool-cases (is_below x)) [
    | inl h ↦ rw h (ground arith, All-select_below xs)
    | inr h ↦ rw h (All-select_below xs)
  ]

  pub All-delete_below : (xs : List A) → All (λ x. t ≤ key x) (delete is_below xs)
  All-delete_below [] = tt
  All-delete_below (x ∷ xs) = elim (Bool-cases (is_below x)) [
    | inl h ↦ rw h (All-delete_below xs)
    | inr h ↦ rw h (ground arith, All-delete_below xs)
  ]

  pub sort_by-split :
      (xs : List A)
      → sort_by key xs ≡ sort_by key (select is_below xs) ++ sort_by key (delete is_below xs)
  sort_by-split [] = refl
  sort_by-split (x ∷ xs) = elim (Bool-cases (is_below x)) [
    | inl h ↦
        rw (h, sort_by-split xs)
          (insert_by-first x (sort_by key (select is_below xs)) (sort_by key (delete is_below xs)) h
            (All-sort_by key (λ y. t ≤ key y) (delete is_below xs) (All-delete_below xs)))
    | inr h ↦
        rw (h, sort_by-split xs)
          (insert_by-last x (sort_by key (select is_below xs)) (sort_by key (delete is_below xs)) h
            (All-sort_by key (λ y. key y < t) (select is_below xs) (All-select_below xs)))
  ]
