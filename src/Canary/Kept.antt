-- ===== src/Canary/Kept.antt =====
-- The calls of the canary service keep the rows sound (backend/internal/service/canary.go).
use cooker.Prelude.{
  ℕ, ◌+◌, ◌≤◌, String, true, false, Option, none, some, some_inj, ◌≡◌, refl, sym, ap, subst, ◌∙◌,
  arith,
}
use cooker.Prelude.Int.{ℤ, pos}
use cooker.Prelude.Dict.{lookup, insert}
use cooker.Canary.{
  CanaryStatus, progressing, promoted, aborted, AppCanary, Canaries, canary_active, is_progressing,
  get_active, Claim, not_found, lost, won, claim_terminal, update,
}
use cooker.Canary.Slots.{
  slot, taken, slot_of, IsSound, taken-insert, get_active-Active, update-IsSound, update-idle,
  claim-won, claim-IsSound,
}
use cooker.Canary.Service.{
  App, WeightedRequest, SplitError, World, Reply, AppAnswer, app_found, app_gone, app_unreadable,
  app_prefix_request, send, written, saved, told, claimed, promoted_row, aborted_row, promote_from,
  abort_from, with_app, with_active, promote, abort,
}

-- An update whose error is dropped.
pub written-IsSound :
    (o : Option (AppCanary × Canaries)) (w : World)
    → IsSound w.canaries
    → ((stored : AppCanary) (after : Canaries) → o ≡ some (stored, after) → IsSound after)
    → IsSound (written o w).canaries
written-IsSound none w h f = h
written-IsSound (some (stored, after)) w h f = f stored after refl

-- After a won claim the slot of the row is free for it to come back.
revert_room :
    (now : ℤ) (to : CanaryStatus) (app : String) (c : AppCanary) (m after : Canaries)
    → IsSound m
    → canary_active to ≡ false
    → lookup c.id m ≡ some c
    → claim_terminal now c.id to m ≡ won after
    → (owner : String)
    → taken owner after + slot owner (record c { status = progressing; resolved_at = none })
      ≤ 1 + slot_of owner (lookup c.id after)
revert_room now to app c m after h idle found e owner =
    let (c2, found2, going, same) = claim-won now c.id to m after e in
    let is_c : c2 ≡ c = some_inj (sym found2 ∙ found) in
    let own = subst (λ x. is_progressing x.status ≡ true) is_c going in
    let row = record c { status = to; updated_at = now } in
    let now_rows : after ≡ insert c.id row m =
      same ∙ ap (λ x. insert c.id (record x { status = to; updated_at = now }) m) is_c in
    let t : taken owner (insert c.id row m) + slot owner c ≡ taken owner m + slot owner row =
      ap (λ o. taken owner (insert c.id row m) + slot_of owner o) (sym found)
      ∙ taken-insert owner c.id row m in
    let s = h.single owner in
    subst
      (λ a.
        taken owner a + slot owner (record c { status = progressing; resolved_at = none })
        ≤ 1 + slot_of owner (lookup c.id a))
      (sym now_rows) (sum _ _ _ own t s)
  where
    sum :
        (x y z : ℕ)
        → is_progressing c.status ≡ true
        → x + slot owner c ≡ y + slot owner (record c { status = to; updated_at = now })
        → y ≤ 1
        → x + slot owner (record c { status = progressing; resolved_at = none }) ≤ 1 + z
    sum x y z p q r = ground (arith, p, q, r, idle)

module _ (now : ℤ) (deploy : WeightedRequest → Option SplitError) where
  told-IsSound :
      (c done : AppCanary) (event reason : String) (w : World) (answer : Option SplitError)
      → IsSound w.canaries
      → canary_active done.status ≡ false
      → ((owner : String)
          → taken owner w.canaries
              + slot owner (record c { status = progressing; resolved_at = none })
            ≤ 1 + slot_of owner (lookup c.id w.canaries))
      → IsSound (told now deploy c done event reason w answer).1.canaries
  told-IsSound c done event reason w (some e) h idle room =
      written-IsSound
        (update now (record c { status = progressing; resolved_at = none }) w.canaries) w h
        (update-IsSound now (record c { status = progressing; resolved_at = none }) w.canaries h
          room)
  told-IsSound c done event reason w none h idle room = by_rows (update now done w.canaries) refl
    where
      by_rows :
          (o : Option (AppCanary × Canaries))
          → update now done w.canaries ≡ o
          → IsSound (saved now deploy event reason w o).1.canaries
      by_rows none e = h
      by_rows (some (stored, m)) e = update-idle now done w.canaries h idle stored m e

  claimed-IsSound :
      (app : App) (c done : AppCanary) (weight : ℤ) (event reason : String) (w : World)
      (to : CanaryStatus)
      → IsSound w.canaries
      → lookup c.id w.canaries ≡ some c
      → canary_active to ≡ false
      → canary_active done.status ≡ false
      → (answer : Claim) → claim_terminal now c.id to w.canaries ≡ answer
      → IsSound (claimed now deploy app c done weight event reason w answer).1.canaries
  claimed-IsSound app c done weight event reason w to h found idle over not_found e = h
  claimed-IsSound app c done weight event reason w to h found idle over lost e = h
  claimed-IsSound app c done weight event reason w to h found idle over (won m) e =
      let r = app_prefix_request app c weight in
      told-IsSound c done event reason (send r (record w { canaries = m })) (deploy r)
        (claim-IsSound now c.id to w.canaries m h idle e) over
        (revert_room now to "" c w.canaries m h idle found e)

  promote_from-IsSound :
      (app : App) (c : AppCanary) (w : World)
      → IsSound w.canaries
      → lookup c.id w.canaries ≡ some c
      → IsSound (promote_from now deploy app c w).1.canaries
  unfolding promote_from
  promote_from-IsSound app c w h found =
      claimed-IsSound app c (promoted_row now deploy c) (pos 100) "canary.promoted" "" w promoted h
        found refl refl (claim_terminal now c.id promoted w.canaries) refl

  abort_from-IsSound :
      (app : App) (c : AppCanary) (reason : String) (w : World)
      → IsSound w.canaries
      → lookup c.id w.canaries ≡ some c
      → IsSound (abort_from now deploy app c reason w).1.canaries
  unfolding abort_from
  abort_from-IsSound app c reason w h found =
      claimed-IsSound app c (aborted_row now deploy c reason) (pos 0) "canary.aborted"
        (aborted_row now deploy c reason).message w aborted h found refl refl
        (claim_terminal now c.id aborted w.canaries) refl

  module _ (apps : String → AppAnswer) where
    with_active-IsSound :
        (app_id : String) (w : World) (act : App → AppCanary → Reply × World)
        → IsSound w.canaries
        → ((app : App) (c : AppCanary)
            → lookup c.id w.canaries ≡ some c
            → IsSound (act app c).1.canaries)
        → (o : Option AppCanary) → get_active app_id w.canaries ≡ o
        → IsSound (with_active now deploy apps app_id o w act).1.canaries
    with_active-IsSound app_id w act h k none e = h
    with_active-IsSound app_id w act h k (some c) e =
        by_app (apps app_id) (get_active-Active app_id c w.canaries h e).0
      where
        by_app :
            (answer : AppAnswer)
            → lookup c.id w.canaries ≡ some c
            → IsSound (with_app now deploy apps answer w (λ app. act app c)).1.canaries
        by_app (app_found app) found = k app c found
        by_app app_gone found = h
        by_app app_unreadable found = h

    pub promote-IsSound :
        (app_id : String) (w : World)
        → IsSound w.canaries
        → IsSound (promote now deploy apps app_id w).1.canaries
    unfolding promote
    promote-IsSound app_id w h =
        with_active-IsSound app_id w (λ app c. promote_from now deploy app c w) h
          (λ app c found. promote_from-IsSound app c w h found) (get_active app_id w.canaries) refl

    pub abort-IsSound :
        (app_id reason : String) (w : World)
        → IsSound w.canaries
        → IsSound (abort now deploy apps app_id reason w).1.canaries
    unfolding abort
    abort-IsSound app_id reason w h =
        with_active-IsSound app_id w (λ app c. abort_from now deploy app c reason w) h
          (λ app c found. abort_from-IsSound app c reason w h found) (get_active app_id w.canaries)
          refl
