-- ===== src/Chats/Selection.antt =====
-- The documents that a chat may be opened on (backend/app/services/query_validation.py).
use pdftalk.Document.{same_status, Document, ready, is_document}
use pdftalk.Prelude.{
  Option-cases, ℕ, ◌≡◌, refl, ap, ◌↔◌, inl, inr, true, some, List, [], ◌∷◌, arith, ◌==◌, ==_refl,
  Bool-cases, All, All-map,
}
use pdftalk.Chats.{ChatStore, validate_documents_for_query, contains, is_owned_in, check_documents}
use pdftalk.Prelude.Action.{ok}
use pdftalk.Prelude.Table.{find, select}
use pdftalk.Document.Service.{owned_by}
use pdftalk.Document

-- An element of a list of ids is found in it.
contains-All : (ids : List ℕ) → All (λ i. contains ids i ≡ true) ids
contains-All [] = tt
contains-All (i ∷ ids) =
    (ground (arith, ==_refl i), All-map ids (λ j h. ground (arith, h)) (contains-All ids))

-- Among the selected rows, the one of a wanted id is the user's own of that id.
find-select_owned :
    (ids : List ℕ) (u i : ℕ) (ds : List Document.Document)
    → contains ids i ≡ true
    → find (is_document i) (select (is_owned_in ids u) ds) ≡ find (owned_by i u) ds
find-select_owned ids u i [] h = refl
find-select_owned ids u i (d ∷ ds) h = elim (Bool-cases (d.id == i)) [
  | inl same ↦
      let e : d.id ≡ i = ground arith in
      ground (arith, ap (contains ids) e, find-select_owned ids u i ds h)
  | inr other ↦ ground (arith, find-select_owned ids u i ds h)
]

abbrev pub IsReadyOf : ℕ → List Document.Document → ℕ → Type 0
IsReadyOf u ds i =
    (d : Document.Document) × (find (owned_by i u) ds ≡ some d)
    × (same_status d.status ready ≡ true)

check_documents_iff :
    (ids is : List ℕ) (u : ℕ) (ds : List Document.Document)
    → All (λ i. contains ids i ≡ true) is
    → (check_documents is (select (is_owned_in ids u) ds) ≡ ok tt) ↔ All (IsReadyOf u ds) is
unfolding check_documents
check_documents_iff ids [] u ds h = (λ e. tt, λ a. refl)
check_documents_iff ids (i ∷ is) u ds h =
    let (to, from) = check_documents_iff ids is u ds h.1 in
    let same = find-select_owned ids u i ds h.0 in
    elim (Option-cases (find (owned_by i u) ds)) [
      | inl absent ↦ (λ e. absurd (ground (arith, same)), λ (r, rest). absurd (ground arith))
      | inr (d, present) ↦ elim (Bool-cases (same_status d.status ready)) [
        | inl is_ready ↦ (
          λ e. ((d, present, is_ready), to (ground (arith, same))),
          λ (r, rest). ground (arith, same, from rest),
        )
        | inr unready ↦
            (λ e. absurd (ground (arith, same)), λ ((d', at, now), rest). absurd (ground arith))
      ]
    ]

-- A document list is accepted exactly when each of its ids is that of a READY document of the
-- caller's. The documents that come back are the caller's rows of those ids.
pub validate_documents_for_query_iff :
    (ids : List ℕ) (u : ℕ) (db : ChatStore)
    → (validate_documents_for_query ids u db ≡ ok (select (is_owned_in ids u) db.documents))
      ↔ All (IsReadyOf u db.documents) ids
unfolding validate_documents_for_query
validate_documents_for_query_iff ids u db =
    let (to, from) = check_documents_iff ids ids u db.documents (contains-All ids) in
    (λ e. to (ground arith), λ a. ground (arith, from a))
