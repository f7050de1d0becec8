-- ===== src/BatteryAlarm/Pass/Once.antt =====
-- How often a tier is notified.
use stayturgid.Base.{
  ℕ, ◌+◌, ◌≤◌, ◌≡◌, Bool, true, false, ◌||◌, none, some, List, [], ◌∷◌, ◌++◌, arith, ltb,
  if◌then◌else◌, All,
}
use stayturgid.BatteryAlarm.Battery.{Reading, on_power}
use stayturgid.BatteryAlarm.Sound.{State, Phone, Result}
use stayturgid.BatteryAlarm.Sound.Counts.{alerts, alerts-append}
use stayturgid.BatteryAlarm.Evening.{number_member}
use stayturgid.BatteryAlarm.Pass.{top_tier, alerted_tiers, clear_alert_state, pass_reading, pass}
use stayturgid.BatteryAlarm.Pass.Notices.{Input, Draining, pass-Notifies, pass_known}

-- A run of passes.
unfoldable pub passes : List Input → State → Result
passes [] s = (s, [])
passes ((batt, now, phone) ∷ inputs) s =
    let (s', effects) = pass (some batt) now phone s in
    let (s'', more) = passes inputs s' in (s'', effects ++ more)

-- 1 while the tier may still be notified.
abbrev left : Bool → ℕ
left true = 0
left false = 1

abbrev pub IsDraining : Input → Type 0
IsDraining input = (pct : ℕ) × Draining input pct

passes_budget :
    (t : ℕ) (inputs : List Input) (s : State)
    → All IsDraining inputs
    → alerts t (passes inputs s).1 + left (number_member t (alerted_tiers (passes inputs s).0))
      ≤ left (number_member t (alerted_tiers s))
unfolding passes
passes_budget t [] s h = omega arith
passes_budget t ((batt, now, phone) ∷ inputs) s ((pct, d), h) =
    let (u, n) = pass-Notifies batt pct now phone s d in
    let s' = (pass (some batt) now phone s).0 in
    let es = (pass (some batt) now phone s).1 in
    ground (
      arith,
      n.notified t,
      n.marked t,
      n.reached,
      n.a_tier,
      passes_budget t inputs s' h,
      alerts-append t es (passes inputs s').1,
    )

-- Over any passes without power at 30 % and below, no tier is notified twice, and none that was
-- notified before them is notified again.
pub tier_once :
    (t : ℕ) (inputs : List Input) (s : State)
    → All IsDraining inputs
    → alerts t (passes inputs s).1 ≤ (if number_member t (alerted_tiers s) then 0 else 1)
tier_once t inputs s h = ground (arith, passes_budget t inputs s h)

-- Power, or a charge above 30 %, forgets the tiers.
pub pass_forgets :
    (batt : Reading) (pct now : ℕ) (phone : Phone) (s : State)
    → batt.percentage ≡ some pct
    → (on_power batt || ltb top_tier pct) ≡ true
    → (pass (some batt) now phone s).0.alerted ≡ none
unfolding pass_reading clear_alert_state
pass_forgets batt pct now phone s is clear =
    rw (pass_known batt pct now phone s is, pass_reading, clear) (ground arith)
