-- ===== src/Document/Keys.antt =====
-- The primary key of the documents table: no identifier stands in two rows, and what the queries
-- by key give under it.
use pdftalk.Prelude.{
  ℕ, ◌+◌, ◌≡◌, refl, inl, inr, Bool, none, some, List, [], ◌∷◌, ◌++◌, arith, ◌==◌, if◌then◌else◌,
  Bool-cases,
}
use pdftalk.Document.{Document, is_document}
use pdftalk.Prelude.Table.{find, delete, update, count}
use pdftalk.Document.Service.{owned_by}
use mathlib.Core.Option

abbrev pub IsKeyed : List Document → Type 0
IsKeyed [] = Unit {0}
IsKeyed (d ∷ ds) = (find (is_document d.id) ds ≡ none) × IsKeyed ds

abbrev pub indicator : Bool → ℕ
indicator b = if b then 1 else 0

pub find-append :
    (i : ℕ) (xs ys : List Document)
    → find (is_document i) xs ≡ none
    → find (is_document i) (xs ++ ys) ≡ find (is_document i) ys
find-append i [] ys h = refl
find-append i (x ∷ xs) ys h = ground (arith, find-append i xs ys)

-- A document fetched for its owner is the row of its key.
pub find-owned_by :
    (i u : ℕ) (xs : List Document) (d : Document)
    → IsKeyed xs
    → find (owned_by i u) xs ≡ some d
    → (find (is_document i) xs ≡ some d) × (d.id ≡ i) × (d.user_id ≡ u)
find-owned_by i u [] d k h = cc
find-owned_by i u (x ∷ xs) d k h = elim (Bool-cases (x.id == i)) [
  | inl hit ↦ ground (arith, find-owned_by i u xs d k.1)
  | inr miss ↦ ground (arith, find-owned_by i u xs d k.1)
]

module _ (i : ℕ) (f : Document → Document) where
  pub update-absent :
      (xs : List Document) → find (is_document i) xs ≡ none → update (is_document i) f xs ≡ xs
  update-absent [] h = refl
  update-absent (x ∷ xs) h = ground (arith, update-absent xs)

  -- A write to one row changes a count by that row's part only.
  pub count-update :
      (p : Document → Bool) (xs : List Document) (d : Document)
      → IsKeyed xs
      → find (is_document i) xs ≡ some d
      → count p (update (is_document i) f xs) + indicator (p d) ≡ count p xs + indicator (p (f d))
  count-update p [] d k h = cc
  count-update p (x ∷ xs) d k h = elim (Bool-cases (x.id == i)) [
    | inl hit ↦ ground (arith, update-absent xs)
    | inr miss ↦ ground (arith, count-update p xs d k.1)
  ]

module _ (i : ℕ) (f : Document → Document) (same_id : (d : Document) → (f d).id ≡ d.id) where
  pub find-update :
      (j : ℕ) (xs : List Document)
      → find (is_document j) (update (is_document i) f xs)
        ≡ (if i == j then Option.map f (find (is_document j) xs) else find (is_document j) xs)
  find-update j [] = ground arith
  find-update j (x ∷ xs) = ground (arith, same_id x, find-update j xs)

  pub update-IsKeyed : (xs : List Document) → IsKeyed xs → IsKeyed (update (is_document i) f xs)
  update-IsKeyed [] k = tt
  update-IsKeyed (x ∷ xs) k = ground (arith, update-IsKeyed xs k.1, same_id x, find-update x.id xs)

pub append-IsKeyed :
    (xs : List Document) (d : Document)
    → IsKeyed xs
    → find (is_document d.id) xs ≡ none
    → IsKeyed (xs ++ d ∷ [])
append-IsKeyed [] d k h = (refl, tt)
append-IsKeyed (x ∷ xs) d k h =
    ground (arith, append-IsKeyed xs d k.1, find-append x.id xs (d ∷ []))

pub find-delete :
    (i j : ℕ) (xs : List Document)
    → find (is_document j) (delete (is_document i) xs)
      ≡ (if i == j then none else find (is_document j) xs)
find-delete i j [] = ground arith
find-delete i j (x ∷ xs) = ground (arith, find-delete i j xs)

pub delete-IsKeyed : (i : ℕ) (xs : List Document) → IsKeyed xs → IsKeyed (delete (is_document i) xs)
delete-IsKeyed i [] k = tt
delete-IsKeyed i (x ∷ xs) k = ground (arith, delete-IsKeyed i xs k.1, find-delete i x.id xs)
