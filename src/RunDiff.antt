-- ===== src/RunDiff.antt =====
-- The difference of the variables of two runs (backend/internal/service/run_diff.go).
pub mod Patch
pub mod Tests
use cooker.Prelude.{
  String, Bool, true, false, ◌&&◌, Option, none, some, List, [], ◌∷◌, ◌=ₛ◌, if◌then◌else◌,
}
use cooker.Prelude.Dict.{lookup, insert}

abbrev pub Variables : Type 0
Variables = List (String × String)

-- `ValueChange`.
pub record ValueChange : Type 0 where
  pub from : String
  pub to : String

-- `VariablesDiff`.
pub record VariablesDiff : Type 0 where
  pub added : Variables
  pub removed : Variables
  pub changed : List (String × ValueChange)

-- A variable of the newer run, against what the older run has.
abbrev pub compare_value : String → String → Option String → VariablesDiff → VariablesDiff
compare_value k v none d = record d { added = insert k v d.added }
compare_value k v (some old) d =
    if old =ₛ v
    then d
    else record d { changed = insert k (record { from = old; to = v }) d.changed }

-- The loop over the variables of the newer run.
unfoldable pub compare_all : (from to : Variables) → VariablesDiff → VariablesDiff
compare_all from [] d = d
compare_all from ((k, v) ∷ to) d = compare_all from to (compare_value k v (lookup k from) d)

abbrev pub remove_value : String → String → Option String → VariablesDiff → VariablesDiff
remove_value k v none d = record d { removed = insert k v d.removed }
remove_value k v (some new) d = d

-- The loop over the variables of the older run.
unfoldable pub remove_all : (to from : Variables) → VariablesDiff → VariablesDiff
remove_all to [] d = d
remove_all to ((k, v) ∷ from) d = remove_all to from (remove_value k v (lookup k to) d)

abbrev pub is_empty : {A : Type 0} → List A → Bool
is_empty [] = true
is_empty (x ∷ xs) = false

abbrev pub some_diff : VariablesDiff → Option VariablesDiff
some_diff d = if is_empty d.added && is_empty d.removed && is_empty d.changed then none else some d

-- `diffVariables`; none is nil, for no difference.
unfoldable pub diff_variables : (from to : Variables) → Option VariablesDiff
diff_variables from to =
    some_diff
      (remove_all to from (compare_all from to (record { added = []; removed = []; changed = [] })))
