-- ===== src/RunDiff/Patch.antt =====
-- The difference of two sets of variables takes the one to the other
-- (backend/internal/service/run_diff.go).
use cooker.Prelude.{
  String, Option, none, some, List, [], ◌∷◌, ◌≡◌, inl, inr, refl, ap, subst, ◌∙◌, arith, ◌=ₛ◌,
  =ₛ_eq, Bool-cases, if◌then◌else◌,
}
use cooker.Prelude.Dict.{lookup, insert, lookup-insert, Keyed}
use cooker.RunDiff.{
  Variables, ValueChange, VariablesDiff, compare_value, compare_all, remove_value, remove_all,
  some_diff, diff_variables,
}

module _ {B : Type 0} (f : String → String → Option B) where
  abbrev put : String → Option B → List (String × B) → List (String × B)
  put k none m = m
  put k (some b) m = insert k b m

  -- What a function gives for each variable, written into a map.
  abbrev collect : Variables → List (String × B) → List (String × B)
  collect [] m = m
  collect ((k, v) ∷ vars) m = collect vars (put k (f k v) m)

  abbrev or_old : Option B → Option B → Option B
  or_old none old = old
  or_old (some b) old = some b

  abbrev given : String → Option String → Option B → Option B
  given k none old = old
  given k (some v) old = or_old (f k v) old

  lookup-put :
      (i k : String) (o : Option B) (m : List (String × B))
      → lookup k (put i o m) ≡ (if i =ₛ k then or_old o (lookup k m) else lookup k m)
  lookup-put i k none m = ground arith
  lookup-put i k (some b) m = lookup-insert i k b m ∙ ground arith

  lookup-collect :
      (k : String) (vars : Variables) (m : List (String × B))
      → Keyed vars
      → lookup k (collect vars m) ≡ given k (lookup k vars) (lookup k m)
  unfolding lookup
  lookup-collect k [] m h = refl
  lookup-collect k ((i, v) ∷ vars) m h =
      lookup-collect k vars (put i (f i v) m) h.1
      ∙ ap (given k (lookup k vars)) (lookup-put i k (f i v) m)
      ∙ elim (Bool-cases (i =ₛ k)) [
        | inl e ↦
            let gone : lookup k vars ≡ none = subst (λ j. lookup j vars ≡ none) (=ₛ_eq i k e) h.0 in
            rw (e, gone) (ap (λ j. or_old (f j v) (lookup k m)) (=ₛ_eq i k e))
        | inr e ↦ rw e refl
      ]

abbrev added_of : Option String → String → Option String
added_of none v = some v
added_of (some old) v = none

abbrev changed_of : Option String → String → Option ValueChange
changed_of none v = none
changed_of (some old) v = if old =ₛ v then none else some (record { from = old; to = v })

compare-added :
    (from to : Variables) (d : VariablesDiff)
    → (compare_all from to d).added ≡ collect (λ k v. added_of (lookup k from) v) to d.added
unfolding compare_all
compare-added from [] d = refl
compare-added from ((k, v) ∷ to) d =
    compare-added from to (compare_value k v (lookup k from) d)
    ∙ ap (collect (λ i w. added_of (lookup i from) w) to) (one (lookup k from))
  where
    one :
        (o : Option String)
        → (compare_value k v o d).added
          ≡ put (λ i w. added_of (lookup i from) w) k (added_of o v) d.added
    one none = refl
    one (some old) = elim (Bool-cases (old =ₛ v)) [ inl e ↦ rw e refl | inr e ↦ rw e refl ]

compare-changed :
    (from to : Variables) (d : VariablesDiff)
    → (compare_all from to d).changed ≡ collect (λ k v. changed_of (lookup k from) v) to d.changed
unfolding compare_all
compare-changed from [] d = refl
compare-changed from ((k, v) ∷ to) d =
    compare-changed from to (compare_value k v (lookup k from) d)
    ∙ ap (collect (λ i w. changed_of (lookup i from) w) to) (one (lookup k from))
  where
    one :
        (o : Option String)
        → (compare_value k v o d).changed
          ≡ put (λ i w. changed_of (lookup i from) w) k (changed_of o v) d.changed
    one none = refl
    one (some old) = elim (Bool-cases (old =ₛ v)) [ inl e ↦ rw e refl | inr e ↦ rw e refl ]

compare-removed :
    (from to : Variables) (d : VariablesDiff) → (compare_all from to d).removed ≡ d.removed
unfolding compare_all
compare-removed from [] d = refl
compare-removed from ((k, v) ∷ to) d =
    compare-removed from to (compare_value k v (lookup k from) d) ∙ one (lookup k from)
  where
    one : (o : Option String) → (compare_value k v o d).removed ≡ d.removed
    one none = refl
    one (some old) = elim (Bool-cases (old =ₛ v)) [ inl e ↦ rw e refl | inr e ↦ rw e refl ]

remove_all_lem :
    (to from : Variables) (d : VariablesDiff)
    → remove_all to from d
      ≡ record d { removed = collect (λ k v. added_of (lookup k to) v) from d.removed }
unfolding remove_all
remove_all_lem to [] d = refl
remove_all_lem to ((k, v) ∷ from) d =
    remove_all_lem to from (remove_value k v (lookup k to) d) ∙ one (lookup k to)
  where
    one :
        (o : Option String)
        → ◌≡◌ {A = VariablesDiff}
            (record (remove_value k v o d) {
              removed =
                  collect (λ i w. added_of (lookup i to) w) from (remove_value k v o d).removed;
            })
            (record d {
              removed =
                  collect
                    (λ i w. added_of (lookup i to) w)
                    from
                    (put (λ i w. added_of (lookup i to) w) k (added_of o v) d.removed);
            })
    one none = refl
    one (some new) = refl

-- The value of a variable after a difference is applied to an older value.
abbrev after_added : Option String → Option String → Option String
after_added none old = old
after_added (some v) old = some v

abbrev after_changed : Option ValueChange → Option String → Option String
after_changed none next = next
after_changed (some c) next = some c.to

abbrev after_removed : Option String → Option String → Option String
after_removed none next = next
after_removed (some v) next = none

abbrev pub patch_with : VariablesDiff → String → Option String → Option String
patch_with d k old =
    after_removed (lookup k d.removed)
      (after_changed (lookup k d.changed) (after_added (lookup k d.added) old))

abbrev pub patch : Option VariablesDiff → String → Option String → Option String
patch none k old = old
patch (some d) k old = patch_with d k old

abbrev raw : Variables → Variables → VariablesDiff
raw from to =
    remove_all to from (compare_all from to (record { added = []; removed = []; changed = [] }))

patch-some_diff :
    (d : VariablesDiff) (k : String) (old : Option String)
    → patch (some_diff d) k old ≡ patch_with d k old
unfolding lookup
patch-some_diff d k old = go d.added d.removed d.changed
  where
    go :
        (a r : Variables) (c : List (String × ValueChange))
        → patch (some_diff (record { added = a; removed = r; changed = c })) k old
          ≡ patch_with (record { added = a; removed = r; changed = c }) k old
    go [] [] [] = refl
    go [] [] (x ∷ c) = refl
    go [] (x ∷ r) c = refl
    go (x ∷ a) r c = refl

raw_lem :
    (from to : Variables) (k : String)
    → Keyed from
    → Keyed to
    → (lookup k (raw from to).added
        ≡ given (λ i v. added_of (lookup i from) v) k (lookup k to) none)
      × (lookup k (raw from to).changed
          ≡ given (λ i v. changed_of (lookup i from) v) k (lookup k to) none)
      × (lookup k (raw from to).removed
          ≡ given (λ i v. added_of (lookup i to) v) k (lookup k from) none)
unfolding lookup
raw_lem from to k hf ht =
    let empty : VariablesDiff = record { added = []; removed = []; changed = [] } in
    let d = compare_all from to empty in
    let e = remove_all_lem to from d in
    (
      ap (λ x. lookup k x.added) e
          ∙ ap (lookup k) (compare-added from to empty)
          ∙ lookup-collect (λ i v. added_of (lookup i from) v) k to [] ht,
      ap (λ x. lookup k x.changed) e
          ∙ ap (lookup k) (compare-changed from to empty)
          ∙ lookup-collect (λ i v. changed_of (lookup i from) v) k to [] ht,
      ap (λ x. lookup k x.removed) e
          ∙ lookup-collect (λ i v. added_of (lookup i to) v) k from d.removed hf
          ∙ ap (λ m. given (λ i v. added_of (lookup i to) v) k (lookup k from) (lookup k m))
              (compare-removed from to empty),
    )

-- The three answers for one name come to the newer value.
patched_value :
    (k : String) (from to : Variables)
    → after_removed (given (λ i v. added_of (lookup i to) v) k (lookup k from) none) (
        after_changed (given (λ i v. changed_of (lookup i from) v) k (lookup k to) none) (
          after_added
            (given (λ i v. added_of (lookup i from) v) k (lookup k to) none)
            (lookup k from)))
      ≡ lookup k to
patched_value k from to = by_values (lookup k from) (lookup k to) refl refl
  where
    by_values :
        (f t : Option String)
        → lookup k from ≡ f
        → lookup k to ≡ t
        → after_removed (given (λ i v. added_of (lookup i to) v) k f none) (
            after_changed
              (given (λ i v. changed_of (lookup i from) v) k t none)
              (after_added (given (λ i v. added_of (lookup i from) v) k t none) f))
          ≡ t
    by_values none none p q = refl
    by_values none (some v) p q = rw p refl
    by_values (some u) none p q = rw q refl
    by_values (some u) (some v) p q =
        rw (p, q)
          (elim (Bool-cases (u =ₛ v)) [ inl e ↦ rw e (ap some (=ₛ_eq u v e)) | inr e ↦ rw e refl ])

-- For two maps of variables, the difference applied to the older one gives the newer one: every
-- name then has the newer value, or none.
pub patch-diff_variables :
    (from to : Variables) (k : String)
    → Keyed from
    → Keyed to
    → patch (diff_variables from to) k (lookup k from) ≡ lookup k to
unfolding diff_variables
patch-diff_variables from to k hf ht =
    let (a, c, r) = raw_lem from to k hf ht in
    patch-some_diff (raw from to) k (lookup k from) ∙ rw (a, c, r) (patched_value k from to)
