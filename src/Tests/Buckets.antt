-- ===== src/Tests/Buckets.antt =====
-- A bucket with a tracked, an old, a new and a refused object
-- (backend/scripts/cleanup_s3_orphans.py).
use pdftalk.Prelude.{ℕ, String, ◌≡◌, Bool, none, some, List, [], ◌∷◌, str_eq}
use pdftalk.Orphans.{S3Object, Page, Progress, no_contents, contents, run_cleanup}
use pdftalk.Orphans.Sweep.{run_cleanup-swept}

abbrev object : String → ℕ → S3Object
object k t = record { key = k; last_modified = t }

abbrev bucket : List Page
bucket =
    contents (object "tracked" 10 ∷ object "old" 10 ∷ [])
    ∷ no_contents
    ∷ contents (object "new" 9000 ∷ object "stuck" 20 ∷ [])
    ∷ []

abbrev clean_slate : Progress
clean_slate = record { deleted = []; orphans_deleted = 0; errors = 0 }

abbrev refuses_one : String → Bool
refuses_one k = str_eq k "stuck"

run_cleanup-swept_example :
    (run_cleanup refuses_one (some ("tracked" ∷ [])) 10000 bucket clean_slate
      ≡ record { deleted = "old" ∷ []; orphans_deleted = 1; errors = 1 })
    × (run_cleanup refuses_one none 10000 bucket clean_slate ≡ clean_slate)
run_cleanup-swept_example = run_cleanup-swept refuses_one ("tracked" ∷ []) 10000 bucket clean_slate
