-- ===== src/FleetMonitor/Check/Balance.antt =====
-- The notices of the health and the alarm, and steps one after another.
use stayturgid.Base.{ℕ, ◌+◌, ◌≡◌, ◌∙◌, List, [], ◌∷◌, ◌++◌, arith, leb, if◌then◌else◌}
use stayturgid.FleetMonitor.Stamps.{Device, Action, health_alert, health_recovered, Result}
use stayturgid.FleetMonitor.Check.{and_then}

abbrev pub alerts : List Action → ℕ
alerts [] = 0
alerts (health_alert issues ∷ as') = alerts as' + 1
alerts (other ∷ as') = alerts as'

abbrev pub recoveries : List Action → ℕ
recoveries [] = 0
recoveries (health_recovered ∷ as') = recoveries as' + 1
recoveries (other ∷ as') = recoveries as'

pub alerts-append : (xs ys : List Action) → alerts (xs ++ ys) ≡ alerts xs + alerts ys
alerts-append [] ys = omega arith
alerts-append (x ∷ xs) ys = ground (arith, alerts-append xs ys)

pub recoveries-append :
    (xs ys : List Action) → recoveries (xs ++ ys) ≡ recoveries xs + recoveries ys
recoveries-append [] ys = omega arith
recoveries-append (x ∷ xs) ys = ground (arith, recoveries-append xs ys)

-- 1 while the alarm stands.
abbrev pub alarm : Device → ℕ
alarm s = if leb 2 s.fails then 1 else 0

-- The actions account for the change of the alarm.
abbrev pub Balanced : Device → Result → Type 0
Balanced s r = alerts r.1 + alarm s ≡ recoveries r.1 + alarm r.0

-- The count stays, and nothing is said of the health.
abbrev pub Calm : Device → Result → Type 0
Calm s r = (r.0.fails ≡ s.fails) × (alerts r.1 ≡ 0) × (recoveries r.1 ≡ 0)

pub Calm-and_then :
    (s : Device) (r : Result) (f : Device → Result)
    → Calm s r
    → Calm r.0 (f r.0)
    → Calm s (and_then r f)
unfolding and_then
Calm-and_then s r f h k = (
  k.0 ∙ h.0,
  ground (arith, alerts-append r.1 (f r.0).1, h, k),
  ground (arith, recoveries-append r.1 (f r.0).1, h, k),
)

pub Balanced-and_then :
    (s : Device) (r : Result) (f : Device → Result)
    → Calm s r
    → Balanced r.0 (f r.0)
    → Balanced s (and_then r f)
unfolding and_then
Balanced-and_then s r f h k =
    ground (arith, alerts-append r.1 (f r.0).1, recoveries-append r.1 (f r.0).1, h, k)
