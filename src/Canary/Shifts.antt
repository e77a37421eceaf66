-- ===== src/Canary/Shifts.antt =====
-- `Promote` and `Abort` from the claim on (backend/internal/service/canary.go), whatever happened to
-- the row since it was read; and the verdict of the sweep.
use cooker.Prelude.{
  String, ◌*◌, true, false, Option, none, some, [], ◌∷◌, ◌++◌, ◌≡◌, ◌⊎◌, ◌↔◌, inl, inr, refl, sym,
  ap, ◌∙◌, ◌=ₛ◌, Bool-cases,
}
use cooker.Prelude.Int.{ℤ, pos, ltb_ℤ, ◌+ℤ◌}
use cooker.Prelude.Dict.{lookup}
use cooker.Canary.{progressing, AppCanary, Canaries, is_progressing}
use cooker.Canary.Service.{App, WeightedRequest, SplitError, World}
use cooker.Canary.Sweep.{
  Prober, Decision, Health, healthy, failed_health, other_health, Readiness, ready, not_ready,
  probe_error, canary_prober, app_prober, no_prober, promote_it, wait, roll_back, decide,
  past_deadline, late, by_readiness, by_health,
}

-- The row of an identifier is progressing.
abbrev pub Going : String → Canaries → Type 0
Going id m = (c : AppCanary) × (lookup id m ≡ some c) × (is_progressing c.status ≡ true)

-- The end of a shift to `weight` that was claimed: one request to the cluster, and the row written
-- as `done`, or as progressing when the cluster refuses; no other row changes.
pub record Shifted (now : ℤ) (c done : AppCanary) (r : WeightedRequest) (answer : Option SplitError)
    (w after : World) : Type 0 where
  pub asked : after.requests ≡ w.requests ++ (r ∷ [])
  pub accepted :
      answer ≡ none → lookup c.id after.canaries ≡ some (record done { updated_at = now })
  pub given_back :
      {e : SplitError}
      → answer ≡ some e
      → lookup c.id after.canaries
        ≡ some (record c { status = progressing; resolved_at = none; updated_at = now })
  pub others : (k : String) → (c.id =ₛ k) ≡ false → lookup k after.canaries ≡ lookup k w.canaries

-- What a promotion by the sweep needs: the canary's pods are ready, or, without that probe, the app
-- is healthy, or there is no probe at all.
abbrev pub Verified : Prober → App → Type 0
Verified (canary_prober probe) app = (detail : String) × (probe app ≡ ready detail)
Verified (app_prober probe) app = (msg : String) × (probe app ≡ (healthy, msg))
Verified no_prober app = Unit

-- More than 30 minutes of nanoseconds have passed since the rollout started.
abbrev pub IsLate : (now : ℤ) → AppCanary → Type 0
IsLate now c = ltb_ℤ (c.started_at +ℤ pos (30 * 60 * 1_000_000_000)) now ≡ true

-- The app's own probe, which is asked when the canary's pods have none, says that the app failed.
abbrev pub HasFailed : Prober → App → Type 0
HasFailed (canary_prober probe) app = ⊥
HasFailed (app_prober probe) app = (msg : String) × (probe app ≡ (failed_health, msg))
HasFailed no_prober app = ⊥

one_health : {x y : Health × String} {z : Health × String} → z ≡ x → z ≡ y → x.0 ≡ y.0
one_health e q = ap (λ x. x.0) (sym e ∙ q)

-- The verdict of the sweep, `said` being what it is.
pub record Verdict (p : Prober) (now : ℤ) (app : App) (c : AppCanary) (said : Decision)
    : Type 0 where
  pub promotes : (said ≡ promote_it) ↔ Verified p app
  pub rolls_back : (said ≡ roll_back) ↔ (HasFailed p app ⊎ (IsLate now c × ¬ Verified p app))

not_late :
    (now : ℤ) (c : AppCanary) (over early : String) → (late now c over early).0 ≡ promote_it → ⊥
not_late now c over early e = elim (Bool-cases (past_deadline now c)) [
  | inl t ↦ let q : roll_back ≡ promote_it = rw t at e in cc
  | inr t ↦ let q : wait ≡ promote_it = rw t at e in cc
]

-- Past the deadline, and only then, the sweep rolls back what no probe has shown to be well.
late-roll_back :
    (now : ℤ) (c : AppCanary) (over early : String)
    → ((late now c over early).0 ≡ roll_back) ↔ IsLate now c
late-roll_back now c over early = elim (Bool-cases (past_deadline now c)) [
  | inl t ↦ rw t ((λ e. refl), (λ l. refl))
  | inr t ↦ rw t ((λ e. absurd (cc)), (λ l. absurd (cc)))
]

-- A probe that does not tell: the sweep waits up to the deadline.
late-Verdict :
    (p : Prober) (now : ℤ) (app : App) (c : AppCanary) (over early : String)
    → ¬ Verified p app
    → ¬ HasFailed p app
    → Verdict p now app c (late now c over early).0
late-Verdict p now app c over early unwell unfailed =
    let ends = late-roll_back now c over early in
    record {
      promotes = (λ e. absurd (not_late now c over early e), λ v. absurd (unwell v));
      rolls_back = (
        λ e. inr (ends.0 e, unwell),
        λ o. elim o [ inl f ↦ absurd (unfailed f) | inr l ↦ ends.1 l.0 ],
      );
    }

-- A probe that shows the rollout to be well, or no probe.
well-Verdict :
    (p : Prober) (now : ℤ) (app : App) (c : AppCanary)
    → Verified p app
    → ¬ HasFailed p app
    → Verdict p now app c promote_it
well-Verdict p now app c well unfailed = record {
  promotes = (λ e. well, λ v. refl);
  rolls_back =
      (λ e. absurd (cc), λ o. elim o [ inl f ↦ absurd (unfailed f) | inr l ↦ absurd (l.1 well) ]);
}

-- The sweep promotes a rollout just when a probe has shown that it is well or there is none. It
-- rolls a rollout back just when the app's own probe says that the app failed, or when more than 30
-- minutes have passed since the start and no probe has shown that it is well.
pub decide-Verified :
    (p : Prober) (now : ℤ) (app : App) (c : AppCanary) → Verdict p now app c (decide p now app c).0
decide-Verified no_prober now app c = well-Verdict no_prober now app c tt (λ f. f)
decide-Verified (canary_prober probe) now app c = by_answer (probe app) refl
  where
    by_answer :
        (r : Readiness)
        → probe app ≡ r
        → Verdict (canary_prober probe) now app c (by_readiness now c r).0
    by_answer (ready d) e = well-Verdict (canary_prober probe) now app c (d, e) (λ f. f)
    by_answer (not_ready d) e =
        late-Verdict (canary_prober probe) now app c _ _ (λ (d2, q). absurd (cc)) (λ f. f)
    by_answer (probe_error d) e =
        late-Verdict (canary_prober probe) now app c _ _ (λ (d2, q). absurd (cc)) (λ f. f)
decide-Verified (app_prober probe) now app c = by_answer (probe app) refl
  where
    by_answer :
        (r : Health × String)
        → probe app ≡ r
        → Verdict (app_prober probe) now app c (by_health now c r).0
    by_answer (healthy, m) e =
        well-Verdict (app_prober probe) now app c (m, e)
          (λ (n, q). let x : healthy ≡ failed_health = one_health e q in cc)
    by_answer (failed_health, m) e = record {
      promotes = (
        λ p. absurd (cc),
        λ (n, q). absurd (let x : failed_health ≡ healthy = one_health e q in cc),
      );
      rolls_back = (λ p. inl (m, e), λ o. refl);
    }
    by_answer (other_health h, m) e =
        late-Verdict (app_prober probe) now app c _ _
          (λ (n, q). let x : other_health h ≡ healthy = one_health e q in cc)
          (λ (n, q). let x : other_health h ≡ failed_health = one_health e q in cc)
