-- ===== src/FleetMonitor/Tasker/Unanswered.antt =====
-- When the operator is told of an unproven Tasker profile.
use stayturgid.Base.{
  ℕ, ◌+◌, ◌<◌, ◌≡◌, refl, inl, inr, Bool, true, false, ◌||◌, Option, none, some, List, [], ◌∷◌,
  ◌++◌, arith, Text, Bool-cases,
}
use stayturgid.FleetHealth.Report.{Report}
use stayturgid.FleetHealth.Evaluate.{tasker_recover_stale}
use stayturgid.FleetMonitor.Stamps.{
  Stamp, Device, Switches, Action, nag_unproven, cooldown_ok, Result,
}
use stayturgid.FleetMonitor.Tasker.{
  nag_tasker_failed, nag_tasker_stopped, nag_tasker_advisory, probe_tasker, nag_tasker_unproven,
  test_tasker, maybe_nag_tasker_recover,
}

-- The operator is told that the profile is unproven.
abbrev pub tells : List Action → Bool
tells [] = false
tells (nag_unproven ∷ actions) = true
tells (other ∷ actions) = tells actions

-- A self-test of an earlier pass, less than a week old.
abbrev pub Unanswered : Device → ℕ → Type 0
Unanswered s now = (at : ℕ) × (s.tasker_probe ≡ some at) × (now < at + 604800)

tells-append : (xs ys : List Action) → tells (xs ++ ys) ≡ (tells xs || tells ys)
tells-append [] ys = refl
tells-append (x ∷ xs) ys = ground (arith, tells-append xs ys)

-- What the steps before the last one do not touch.
abbrev Untold : Device → Result → Type 0
Untold s r =
    (tells r.1 ≡ false) × (r.0.tasker_nag ≡ s.tasker_nag) × (r.0.tasker_probe ≡ s.tasker_probe)

nag_tasker_advisory-Untold :
    (r : Report) (now : ℕ) (s : Device) → Untold s (nag_tasker_advisory r now s)
unfolding nag_tasker_advisory nag_tasker_failed nag_tasker_stopped
nag_tasker_advisory-Untold r now s = ground arith

probe_tasker_untold :
    (w : Switches) (target : Option Text) (ran : Bool) (now : ℕ) (s : Device)
    → (tells (probe_tasker w target ran now s).1 ≡ false)
      × ((probe_tasker w target ran now s).0.tasker_nag ≡ s.tasker_nag)
unfolding probe_tasker
probe_tasker_untold w target ran now s = ground arith

nag_tasker_unproven-tells :
    (prior : Stamp) (now : ℕ) (s : Device)
    → tells (nag_tasker_unproven prior now s).1 ≡ true
    → ((at : ℕ) × (prior ≡ some at) × (now < at + 604800))
      × (cooldown_ok s.tasker_nag now 86400 ≡ true)
      × ((nag_tasker_unproven prior now s).0.tasker_nag ≡ some now)
unfolding nag_tasker_unproven
nag_tasker_unproven-tells none now s h = cc
nag_tasker_unproven-tells (some t) now s h = ((t, refl, ground arith), ground arith, ground arith)

test_tasker-tells :
    (w : Switches) (r : Report) (target : Option Text) (ran : Bool) (now : ℕ) (s : Device)
    → tells (test_tasker w r target ran now s).1 ≡ true
    → (tasker_recover_stale r ≡ true)
      × Unanswered s now
      × (cooldown_ok s.tasker_nag now 86400 ≡ true)
      × ((test_tasker w r target ran now s).0.tasker_nag ≡ some now)
unfolding test_tasker
test_tasker-tells w r target ran now s h = elim (Bool-cases (tasker_recover_stale r)) [
  | inr proven ↦ cc (rw (test_tasker, proven) at h)
  | inl stale ↦
      let p = probe_tasker w target ran now s in
      let u = probe_tasker_untold w target ran now s in
      let last : tells (nag_tasker_unproven s.tasker_probe now p.0).1 ≡ true = cc (
        tells-append p.1 (nag_tasker_unproven s.tasker_probe now p.0).1,
        u.0,
        rw (test_tasker, stale) at h,
      ) in
      let k = nag_tasker_unproven-tells s.tasker_probe now p.0 last in
      rw (test_tasker, stale) (refl, k.0, rw u.1 at k.1, k.2)
]

-- The operator is told that the Tasker profile is unproven only if the marker is stale, a self-test of
-- an earlier pass, less than a week old, left it so, and the last notice on the profile is a day old;
-- then the notice is stamped. The notices of a failed recovery and of a stopped monitor are not meant.
pub tells-Unanswered :
    (w : Switches) (r : Report) (target : Option Text) (ran : Bool) (now : ℕ) (s : Device)
    → tells (maybe_nag_tasker_recover w r target ran now s).1 ≡ true
    → (tasker_recover_stale r ≡ true)
      × Unanswered s now
      × (cooldown_ok s.tasker_nag now 86400 ≡ true)
      × ((maybe_nag_tasker_recover w r target ran now s).0.tasker_nag ≡ some now)
unfolding maybe_nag_tasker_recover
tells-Unanswered w r target ran now s h =
    let a = nag_tasker_advisory r now s in
    let u = nag_tasker_advisory-Untold r now s in
    let t = test_tasker w r target ran now a.0 in
    let k = test_tasker-tells w r target ran now a.0 (cc (tells-append a.1 t.1, u.0, h)) in
    (k.0, rw u.2 at k.1, rw u.1 at k.2, k.3)
