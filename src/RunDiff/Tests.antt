-- ===== src/RunDiff/Tests.antt =====
-- The theorem on differences at the variables of two runs (backend/internal/service/run_diff.go).
use cooker.Prelude.{[], ◌∷◌, ◌≡◌, refl}
use cooker.Prelude.Dict.{lookup, Keyed}
use cooker.RunDiff.{Variables, diff_variables}
use cooker.RunDiff.Patch.{patch, patch-diff_variables}

abbrev old_run : Variables
old_run = ("branch", "main") ∷ ("region", "eu") ∷ []

abbrev new_run : Variables
new_run = ("branch", "fix") ∷ ("tag", "v2") ∷ []

old_run-Keyed : Keyed old_run
unfolding lookup
old_run-Keyed = (refl, (refl, tt))

new_run-Keyed : Keyed new_run
unfolding lookup
new_run-Keyed = (refl, (refl, tt))

patch-diff_variables_example :
    patch (diff_variables old_run new_run) "branch" (lookup "branch" old_run)
    ≡ lookup "branch" new_run
patch-diff_variables_example =
    patch-diff_variables old_run new_run "branch" old_run-Keyed new_run-Keyed
