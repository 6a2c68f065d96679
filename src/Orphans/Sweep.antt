-- ===== src/Orphans/Sweep.antt =====
-- What the sweep deletes (backend/scripts/cleanup_s3_orphans.py).
use pdftalk.Prelude.{
  refl, sym, ◌∙◌, none, some, arith, ℕ, ◌+◌, String, ◌≡◌, Bool, not, ◌&&◌, List, [], ◌∷◌, ◌++◌, map,
}
use pdftalk.Orphans.{
  sweep_object, run_cleanup, S3Object, Page, Progress, is_old, sweep_objects, sweep_pages,
  no_contents, contents,
}
use pdftalk.Chats.{contains_text}
use mathlib.Core.List.{append-nil, append_assoc}
use pdftalk.Prelude.Table.{select, count}

-- No row names the object, and it is older than the safety buffer.
abbrev pub is_orphan : List String → ℕ → S3Object → Bool
is_orphan valid_keys now o = not (contains_text valid_keys o.key) && is_old now o

abbrev pub is_removed : (String → Bool) → List String → ℕ → S3Object → Bool
is_removed refuses valid_keys now o = is_orphan valid_keys now o && not (refuses o.key)

abbrev pub is_refused : (String → Bool) → List String → ℕ → S3Object → Bool
is_refused refuses valid_keys now o = is_orphan valid_keys now o && refuses o.key

-- All objects of the listing.
abbrev pub listed : List Page → List S3Object
listed [] = []
listed (no_contents ∷ ps) = listed ps
listed (contents os ∷ ps) = os ++ listed ps

abbrev key_of : S3Object → String
key_of o = o.key

module _ (refuses : String → Bool) (keys : List String) (now : ℕ) where
  -- The progress after the removal of the orphans among some objects.
  abbrev pub swept : List S3Object → Progress → Progress
  swept os p = record {
    deleted = p.deleted ++ map key_of (select (is_removed refuses keys now) os);
    orphans_deleted = p.orphans_deleted + count (is_removed refuses keys now) os;
    errors = p.errors + count (is_refused refuses keys now) os;
  }

  sweep_objects-swept :
      (os : List S3Object) (p : Progress) → sweep_objects refuses keys now os p ≡ swept os p
  unfolding sweep_objects
  sweep_objects-swept [] p =
      let c : p.orphans_deleted + 0 ≡ p.orphans_deleted = omega arith in
      let e : p.errors + 0 ≡ p.errors = omega arith in rw (append-nil p.deleted, c, e) refl
  sweep_objects-swept (o ∷ os) p =
      sweep_objects-swept os (sweep_object refuses keys now o p)
      ∙ ground (
        arith,
        append_assoc p.deleted (o.key ∷ []) (map key_of (select (is_removed refuses keys now) os)),
      )

  sweep_objects-append :
      (os rest : List S3Object) (p : Progress)
      → sweep_objects refuses keys now (os ++ rest) p
        ≡ sweep_objects refuses keys now rest (sweep_objects refuses keys now os p)
  unfolding sweep_objects
  sweep_objects-append [] rest p = refl
  sweep_objects-append (o ∷ os) rest p =
      sweep_objects-append os rest (sweep_object refuses keys now o p)

  sweep_pages-flat :
      (ps : List Page) (p : Progress)
      → sweep_pages refuses keys now ps p ≡ sweep_objects refuses keys now (listed ps) p
  unfolding sweep_pages
  sweep_pages-flat [] p = refl
  sweep_pages-flat (no_contents ∷ ps) p = sweep_pages-flat ps p
  sweep_pages-flat (contents os ∷ ps) p =
      sweep_pages-flat ps (sweep_objects refuses keys now os p)
      ∙ sym (sweep_objects-append os (listed ps) p)

-- A sweep removes, in the order of the listing, exactly the objects that no document row names,
-- that are older than an hour and whose deletion the store does not refuse; the refused ones are
-- counted as errors. With no answer of the database it removes nothing.
pub run_cleanup-swept :
    (refuses : String → Bool) (keys : List String) (now : ℕ) (pages : List Page) (p : Progress)
    → (run_cleanup refuses (some keys) now pages p ≡ swept refuses keys now (listed pages) p)
      × (run_cleanup refuses none now pages p ≡ p)
unfolding run_cleanup
run_cleanup-swept refuses keys now pages p = (
  sweep_pages-flat refuses keys now pages p ∙ sweep_objects-swept refuses keys now (listed pages) p,
  refl,
)
