-- ===== src/BatteryWatch/Examples.antt =====
-- Runs of the battery watch on one phone.
use stayturgid.Base.{
  ℕ, ◌/◌, ◌%◌, ◌≤◌, ◌≡◌, refl, Bool, true, false, ◌&&◌, not, none, some, List, [], ◌∷◌, arith, Text,
  codes, get_or, if◌then◌else◌,
}
use stayturgid.BatteryWatch.Status.{Status, Report, known, on_charger}
use stayturgid.BatteryWatch.Evaluate.{fresh_slot}
use stayturgid.BatteryWatch.Evaluate.Once.{
  count_low, count_no_charger, watch, any_low, any_overdue, alerts_once, recharge_rearms,
}
use stayturgid.BatteryWatch.RollCall.{Calendar, line_of, lines_of, rollcall}
use stayturgid.BatteryWatch.RollCall.Daily.{calls_on, rollcall_daily}

abbrev host : Text
host = codes "pixel5"

abbrev status_at : ℕ → ℕ → Bool → Status
status_at ts pct charging = record {
  ts = ts;
  pct = some pct;
  status = some (if charging then codes "CHARGING" else codes "DISCHARGING");
  plugged = some (codes "UNPLUGGED");
  on_charger = none;
  eta_min = none;
  last_charged = some 1;
}

abbrev passes : List (Status × ℕ)
passes = (status_at 90000 14 false, 90010) ∷ (status_at 91000 13 false, 91010) ∷ []

alerts_once_example :
    let msgs = (watch host false passes []).0 in
    (count_low msgs
      ≡ (if any_low false passes && not (get_or host fresh_slot []).low then 1 else 0))
    × (count_no_charger msgs
        ≡ (if any_overdue false passes && not (get_or host fresh_slot []).nocharge then 1 else 0))
unfolding on_charger
alerts_once_example = alerts_once host false passes [] (refl, (refl, tt))

recharge_rearms_example :
    let msgs = (watch host false ((status_at 80000 90 true, 80010) ∷ passes) []).0 in
    (count_low msgs ≡ (if any_low false passes then 1 else 0))
    × (count_no_charger msgs ≡ (if any_overdue false passes then 1 else 0))
unfolding on_charger
recharge_rearms_example =
    recharge_rearms host false (status_at 80000 90 true) 80010 passes [] refl refl
      (refl, (refl, tt))

-- UTC, and midnight dates counted from 1970.
abbrev utc : Calendar
utc = record { hour = λ t. t % 86400 / 3600; date = λ t. t / 86400 }

abbrev calls : List (List (Text × Report) × ℕ)
calls =
    ((host, known (status_at 75590 20 false)) ∷ [], 75600)
    ∷ ((host, known (status_at 76590 20 false)) ∷ [], 76600)
    ∷ []

calls_once : calls_on utc 0 calls none ≡ 1
unfolding calls_on rollcall lines_of line_of on_charger
calls_once = refl

rollcall_daily_example : calls_on utc 0 calls none ≤ 1
rollcall_daily_example = rollcall_daily utc 0 0 calls none (omega arith, (omega arith, tt))
