-- ===== src/ConfigSync/Tests.antt =====
-- Plans for concrete files.
use paperboat_helper.Base.{
  ◌≡◌, refl, ◌⊎◌, true, false, [], ◌∷◌, Bytes, Bytes_discrete, bytes_key, lookup, arith,
}
use paperboat_helper.ConfigSync.Plan.{
  FileState, Files, bidirectional, push_only, pull_only, plan, plan_paths, all_paths, action,
  differ, add_path, add_paths, accepted_baseline, freeze_conflict_baseline,
}
use paperboat_helper.ConfigSync.Plan.Paths.{has_conflict}
use paperboat_helper.ConfigSync.Plan.Convergence.{applied, published, plan_converges, plan_safe}
use paperboat_helper.ConfigSync.Plan.Baseline.{plan_again, accepted_same}

abbrev name : Bytes
name = 97 ∷ []

abbrev old : FileState
old = record { hash = "o"; bytes = 1; mode = 420; target = "" }

abbrev mine : FileState
mine = record { hash = "m"; bytes = 2; mode = 420; target = "" }

abbrev theirs : FileState
theirs = record { hash = "t"; bytes = 3; mode = 420; target = "" }

abbrev one : FileState → Files
one s = (name, s) ∷ []

-- The workspace has deleted the file.
published_only : has_conflict name (plan bidirectional (one old) [] (one old)).conflicts ≡ false
unfolding plan plan_paths all_paths add_paths add_path action differ lookup Bytes_discrete
published_only = ground arith

plan_converges_example :
    lookup name (applied (plan bidirectional (one old) [] (one old)) [] (one old))
    ≡ lookup name (published (plan bidirectional (one old) [] (one old)) [] (one old))
plan_converges_example = plan_converges (one old) [] (one old) name published_only

plan_safe_example :
    ((lookup name
          (published (plan push_only (one old) (one mine) (one theirs)) (one mine) (one theirs))
        ≡ lookup name (one theirs))
      ⊎ (lookup name (one old) ≡ lookup name (one theirs)))
    × ((lookup name
            (applied (plan push_only (one old) (one mine) (one theirs)) (one mine) (one theirs))
          ≡ lookup name (one mine))
        ⊎ (lookup name (one old) ≡ lookup name (one mine)))
plan_safe_example = plan_safe push_only (one old) (one mine) (one theirs) name

-- The repository has deleted what the workspace has changed.
both_changed : has_conflict name (plan push_only (one old) (one mine) []).conflicts ≡ true
unfolding plan plan_paths all_paths add_paths add_path action differ lookup Bytes_discrete
both_changed = refl

plan_again_example :
    has_conflict name
      (plan push_only
        (freeze_conflict_baseline [] (one old) (plan push_only (one old) (one mine) []).conflicts)
        (one mine)
        []).conflicts
    ≡ true
plan_again_example = plan_again push_only (one old) (one mine) [] [] name both_changed

accepted_same_example :
    action push_only
      (lookup name (accepted_baseline (one old) (one mine) (one theirs) pull_only false))
      (lookup name (one mine))
      (lookup name (one theirs))
    ≡ action push_only (lookup name (one old)) (lookup name (one mine)) (lookup name (one theirs))
accepted_same_example = accepted_same push_only pull_only (one old) (one mine) (one theirs) name
