-- ===== src/Orphans.antt =====
-- backend/scripts/cleanup_s3_orphans.py: the objects of the bucket that no document row names. The
-- listing, the answer of the database and the object store's deletions are arguments; times are
-- seconds.
pub mod Sweep
use pdftalk.Prelude.{
  ◌+◌, ◌*◌, String, Bool, Option, none, some, List, [], ◌∷◌, ◌++◌, ltb, if◌then◌else◌, ℕ,
}
use pdftalk.Chats.{contains_text}

pub record S3Object : Type 0 where
  pub key : String
  pub last_modified : ℕ

-- A page of the listing has no "Contents" where it is empty.
pub data Page : Type 0 where
  no_contents : Page
  contents : List S3Object → Page

-- `deleted` lists the keys of the deletions that the store carried out.
pub record Progress : Type 0 where
  pub deleted : List String
  pub orphans_deleted : ℕ
  pub errors : ℕ

abbrev pub buffer_period : ℕ
buffer_period = 1 * 3600

-- `now - last_modified > BUFFER_PERIOD`
abbrev pub is_old : ℕ → S3Object → Bool
is_old now o = ltb (o.last_modified + buffer_period) now

-- `delete_object`, which the handler guards with `except Exception`.
abbrev pub delete_orphan : (String → Bool) → S3Object → Progress → Progress
delete_orphan refuses o p =
    if refuses o.key
    then record p { errors = p.errors + 1 }
    else record p { deleted = p.deleted ++ o.key ∷ []; orphans_deleted = p.orphans_deleted + 1 }

abbrev pub sweep_object : (String → Bool) → List String → ℕ → S3Object → Progress → Progress
sweep_object refuses valid_keys now o p =
    if contains_text valid_keys o.key
    then p
    else if is_old now o
    then delete_orphan refuses o p
    else p

unfoldable pub sweep_objects :
    (String → Bool) → List String → ℕ → List S3Object → Progress → Progress
sweep_objects refuses valid_keys now [] p = p
sweep_objects refuses valid_keys now (o ∷ os) p =
    sweep_objects refuses valid_keys now os (sweep_object refuses valid_keys now o p)

-- The loop over the pages. A listing that fails ends it after the pages that came before.
unfoldable pub sweep_pages : (String → Bool) → List String → ℕ → List Page → Progress → Progress
unfolding sweep_objects
sweep_pages refuses valid_keys now [] p = p
sweep_pages refuses valid_keys now (no_contents ∷ ps) p = sweep_pages refuses valid_keys now ps p
sweep_pages refuses valid_keys now (contents os ∷ ps) p =
    sweep_pages refuses valid_keys now ps (sweep_objects refuses valid_keys now os p)

-- With no answer of the database nothing is touched.
unfoldable pub run_cleanup :
    (String → Bool) → Option (List String) → ℕ → List Page → Progress → Progress
unfolding sweep_pages
run_cleanup refuses none now pages p = p
run_cleanup refuses (some valid_keys) now pages p = sweep_pages refuses valid_keys now pages p
