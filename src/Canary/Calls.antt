-- ===== src/Canary/Calls.antt =====
-- `Start` keeps the rows sound
-- (backend/internal/service/canary.go).
use cooker.Prelude.{
  ◌+◌, ◌≤◌, String, Bool, true, false, not, Option, none, some, List, ◌≡◌, inl, inr, refl, sym,
  subst, arith, ◌=ₛ◌, =ₛ_refl, if◌then◌else◌,
}
use cooker.Prelude.Int.{ℤ}
use cooker.Prelude.Dict.{lookup, insert, lookup-insert}
use cooker.Canary.{AppCanary, Canaries, canary_active, new_row, create, update}
use cooker.Canary.Config.{is_canary, normalize}
use cooker.Canary.Slots.{slot, taken, slot_of, IsSound, update-IsSound, update-idle, create-cases}
use cooker.Canary.Service.{
  App, WeightedRequest, SplitError, World, Reply, AppDeploy, app_prefix_request, send, fail_pending,
  failed_row, stable_image_for,
}
use cooker.Canary.Start.{
  BuildAnswer, built, build_failed, reserved, live_row, live_saved, establish, with_images,
  build_and_split, after_reserve, start,
}
use cooker.Canary.Kept.{written-IsSound}

fail_pending-IsSound :
    (now : ℤ) (c : AppCanary) (reason : String) (w : World)
    → IsSound w.canaries
    → IsSound (fail_pending now c reason w).canaries
fail_pending-IsSound now c reason w h =
    written-IsSound (update now (failed_row now c reason) w.canaries) w h
      (update-idle now (failed_row now c reason) w.canaries h refl)

module _ (now live : ℤ) (percent : ℤ → String) (build : App → String → BuildAnswer)
    (deploy : WeightedRequest → Option SplitError) where
  establish-IsSound :
      (app : App) (c : AppCanary) (w : World) (answer : Option SplitError)
      → IsSound w.canaries
      → ((owner : String)
          → taken owner w.canaries + slot owner (live_row now live percent build deploy c)
            ≤ 1 + slot_of owner (lookup c.id w.canaries))
      → IsSound (establish now live percent build deploy app c w answer).1.canaries
  establish-IsSound app c w (some e) h room = fail_pending-IsSound live c _ w h
  establish-IsSound app c w none h room =
      by_rows (update live (live_row now live percent build deploy c) w.canaries) refl
    where
      by_rows :
          (o : Option (AppCanary × Canaries))
          → update live (live_row now live percent build deploy c) w.canaries ≡ o
          → IsSound (live_saved now live percent build deploy w o).1.canaries
      by_rows none e = h
      by_rows (some (stored, m)) e =
          update-IsSound live (live_row now live percent build deploy c) w.canaries h room stored m
            e

  build_and_split-IsSound :
      (app : App) (c : AppCanary) (stable : String) (w : World) (answer : BuildAnswer)
      → IsSound w.canaries
      → lookup c.id w.canaries ≡ some c
      → canary_active c.status ≡ true
      → IsSound (build_and_split now live percent build deploy app c stable w answer).1.canaries
  build_and_split-IsSound app c stable w (build_failed e) h found active =
      fail_pending-IsSound live c _ w h
  build_and_split-IsSound app c stable w (built image) h found active =
      let row = with_images now live percent build deploy c stable image in
      let r = app_prefix_request app row row.weight in
      establish-IsSound app row (send r w) (deploy r) h
        (λ owner. let s = h.single owner in rw found (ground (arith, s, active)))

  reserve-IsSound :
      (id : String) (app : App) (run_id : String) (deploys : List AppDeploy) (w : World)
      → IsSound w.canaries
      → IsSound
          (after_reserve now live percent build deploy app run_id deploys w (
            create now
              (reserved now live percent build deploy id app run_id)
              w.canaries)).1.canaries
  reserve-IsSound id app run_id deploys w h =
      let c = reserved now live percent build deploy id app run_id in
      let after = after_reserve now live percent build deploy app run_id deploys w in
      elim (create-cases now c w.canaries) [
        | inl (t, e) ↦ subst (λ o. IsSound (after o).1.canaries) (sym e) h
        | inr k ↦
            let m = insert id (new_row now c) w.canaries in
            subst (λ o. IsSound (after o).1.canaries) (sym k.ends)
              (build_and_split-IsSound app (new_row now c) (stable_image_for app.id deploys m)
                (record w { canaries = m }) (build app run_id) (k.sound h)
                (rw (lookup-insert id id (new_row now c) w.canaries, =ₛ_refl id) refl) refl)
      ]

  if-IsSound :
      (b : Bool) (x y : Reply × World)
      → IsSound x.1.canaries
      → IsSound y.1.canaries
      → IsSound (if b then x else y).1.canaries
  if-IsSound true x y p q = p
  if-IsSound false x y p q = q

  pub start-IsSound :
      (id : String) (app : App) (run_id : String) (deploys : List AppDeploy) (w : World)
      → IsSound w.canaries
      → IsSound (start now live percent build deploy id app run_id deploys w).1.canaries
  unfolding start
  start-IsSound id app run_id deploys w h =
      if-IsSound (not (is_canary (normalize app.canary))) _ _ h (
        if-IsSound (not (app.target_kind =ₛ "kubernetes")) _ _ h
          (reserve-IsSound id app run_id deploys w h))
