-- ===== src/Canary/Sweeps.antt =====
-- The sweep keeps the rows sound (backend/internal/service/canary.go).
use cooker.Prelude.{
  ◌≤◌, String, Bool, true, false, ◌&&◌, Option, none, some, List, [], ◌∷◌, ◌≡◌, ◌⊎◌, inl, inr, refl,
  sym, ap, subst, ◌∙◌, arith, ◌=ₛ◌, Bool-cases, if◌then◌else◌,
}
use cooker.Prelude.Int.{ℤ, pos, ◌-ℤ◌}
use cooker.Prelude.Dict.{lookup, Keyed}
use cooker.Prelude.Dict.Entries.{Entries}
use cooker.Canary.{
  aborted, AppCanary, Canaries, is_pending, before, Claim, not_found, lost, won, claim_terminal,
  update, delete_stale_pending, list_progressing,
}
use cooker.Canary.Slots.{taken, IsSound, update-idle, claim-IsSound}
use cooker.Canary.Service.{
  WeightedRequest, SplitError, World, AppAnswer, app_found, app_gone, app_unreadable,
}
use cooker.Canary.Sweep.{
  Prober, Decision, wait, promote_it, roll_back, decide, act_on, reaped, is_due, sweep_one,
  sweep_all, sweep_auto_promote,
}
use cooker.Canary.Kept.{written-IsSound, promote-IsSound, abort-IsSound}
use Prim.Native.String.{◌++◌ as append}

abbrev kept_rows : ℤ → Canaries → Canaries
kept_rows older_than m = (delete_stale_pending older_than m).1

-- What is kept of a row and the others.
kept-cases :
    (older_than : ℤ) (id : String) (c : AppCanary) (m : Canaries)
    → (kept_rows older_than ((id, c) ∷ m) ≡ kept_rows older_than m)
      ⊎ (kept_rows older_than ((id, c) ∷ m) ≡ (id, c) ∷ kept_rows older_than m)
unfolding delete_stale_pending
kept-cases older_than id c m =
    elim (Bool-cases (is_pending c.status && before c.started_at older_than)) [
      | inl e ↦ inl (rw (kept_rows, e) refl)
      | inr e ↦ inr (rw (kept_rows, e) refl)
    ]

kept-absent :
    (older_than : ℤ) (k : String) (m : Canaries)
    → lookup k m ≡ none
    → lookup k (kept_rows older_than m) ≡ none
unfolding lookup delete_stale_pending
kept-absent older_than k [] h = refl
kept-absent older_than k ((id, c) ∷ m) h =
    let (apart, rest) = later (id =ₛ k) h in
    let r = kept-absent older_than k m rest in
    elim (kept-cases older_than id c m) [
      | inl e ↦ ap (lookup k) e ∙ r
      | inr e ↦ ap (lookup k) e ∙ rw apart r
    ]
  where
    later :
        (b : Bool) → (if b then some c else lookup k m) ≡ none → (b ≡ false) × (lookup k m ≡ none)
    later true e = absurd (cc)
    later false e = (refl, e)

kept-taken :
    (older_than : ℤ) (app : String) (m : Canaries)
    → taken app (kept_rows older_than m) ≤ taken app m
unfolding delete_stale_pending
kept-taken older_than app [] = omega arith
kept-taken older_than app ((id, c) ∷ m) =
    let r = kept-taken older_than app m in
    elim (kept-cases older_than id c m) [
      | inl e ↦ subst (λ x. taken app x ≤ taken app ((id, c) ∷ m)) (sym e) (omega (arith, r))
      | inr e ↦ subst (λ x. taken app x ≤ taken app ((id, c) ∷ m)) (sym e) (omega (arith, r))
    ]

kept-rows :
    (older_than : ℤ) (m : Canaries)
    → Keyed m
    → Entries (λ id c. c.id ≡ id) m
    → Keyed (kept_rows older_than m) × Entries (λ id c. c.id ≡ id) (kept_rows older_than m)
unfolding delete_stale_pending
kept-rows older_than [] k n = (tt, tt)
kept-rows older_than ((id, c) ∷ m) k n =
    let r = kept-rows older_than m k.1 n.1 in
    let both = λ (x : Canaries). Keyed x × Entries (λ i d. d.id ≡ i) x in
    elim (kept-cases older_than id c m) [
      | inl e ↦ subst both (sym e) r
      | inr e ↦ subst both (sym e) ((kept-absent older_than id m k.0, r.0), (n.0, r.1))
    ]

pub delete_stale_pending-IsSound :
    (older_than : ℤ) (m : Canaries) → IsSound m → IsSound (kept_rows older_than m)
delete_stale_pending-IsSound older_than m h =
    let (k, n) = kept-rows older_than m h.keyed h.named in
    record {
      keyed = k;
      named = n;
      single =
          λ app. let t = kept-taken older_than app m in let s = h.single app in omega (arith, t, s);
    }

module _ (now : ℤ) (deploy : WeightedRequest → Option SplitError) (apps : String → AppAnswer)
    (prober : Prober) where
  act_on-IsSound :
      (d : Decision × String) (c : AppCanary) (w : World)
      → IsSound w.canaries
      → IsSound (act_on now deploy apps prober d c w).canaries
  act_on-IsSound (wait, msg) c w h = h
  act_on-IsSound (promote_it, msg) c w h = promote-IsSound now deploy apps c.app_id w h
  act_on-IsSound (roll_back, msg) c w h =
      abort-IsSound now deploy apps c.app_id (append "auto-rollback: " msg) w h

  reaped-IsSound :
      (c : AppCanary) (w : World) (answer : Claim)
      → IsSound w.canaries
      → claim_terminal now c.id aborted w.canaries ≡ answer
      → IsSound (reaped now deploy apps prober c w answer).canaries
  reaped-IsSound c w not_found h e = h
  reaped-IsSound c w lost h e = h
  reaped-IsSound c w (won m) h e =
      let row = record c {
        status = aborted;
        message = "app deleted during canary";
        resolved_at = some now;
      } in
      let sound = claim-IsSound now c.id aborted w.canaries m h refl e in
      written-IsSound (update now row m) (record w { canaries = m }) sound
        (update-idle now row m sound refl)

  sweep_one-IsSound :
      (answer : AppAnswer) (c : AppCanary) (w : World)
      → IsSound w.canaries
      → IsSound (sweep_one now deploy apps prober answer c w).canaries
  sweep_one-IsSound app_gone c w h =
      reaped-IsSound c w (claim_terminal now c.id aborted w.canaries) h refl
  sweep_one-IsSound app_unreadable c w h = h
  sweep_one-IsSound (app_found app) c w h = elim (Bool-cases (is_due now deploy apps prober c)) [
    | inl e ↦ rw e (act_on-IsSound (decide prober now app c) c w h)
    | inr e ↦ rw e h
  ]

  sweep_all-IsSound :
      (cs : List AppCanary) (w : World)
      → IsSound w.canaries
      → IsSound (sweep_all now deploy apps prober cs w).canaries
  unfolding sweep_all
  sweep_all-IsSound [] w h = h
  sweep_all-IsSound (c ∷ cs) w h =
      sweep_all-IsSound cs (sweep_one now deploy apps prober (apps c.app_id) c w)
        (sweep_one-IsSound (apps c.app_id) c w h)

  pub sweep_auto_promote-IsSound :
      (w : World)
      → IsSound w.canaries
      → IsSound (sweep_auto_promote now deploy apps prober w).canaries
  unfolding sweep_auto_promote
  sweep_auto_promote-IsSound w h =
      let m = (delete_stale_pending (now -ℤ pos 3600000000000) w.canaries).1 in
      sweep_all-IsSound (list_progressing m) (record w { canaries = m })
        (delete_stale_pending-IsSound (now -ℤ pos 3600000000000) w.canaries h)
