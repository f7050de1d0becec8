-- ===== src/BatteryAlarm/Battery.antt =====
-- Battery readings, the drain rate and the status for the hub:
-- device/termux/py/stayturgid_battery_alarm.py.
pub mod Rate
pub mod Agreement
use stayturgid.Base.{
  ℕ, ◌+◌, ◌*◌, ◌-◌, ◌/◌, Bool, true, false, ◌||◌, ◌&&◌, not, Option, none, some, List, [], ◌∷◌,
  ◌++◌, Text, codes, member, or_else, ltb, leb, if◌then◌else◌,
}
use stayturgid.BatteryWatch.Status.{Status}

-- What `termux-battery-status` reports, as far as the alarm reads it.
pub record Reading : Type 0 where
  pub percentage : Option ℕ
  pub status : Text
  pub plugged : Option Text

abbrev pub unplugged : Text
unplugged = codes "UNPLUGGED"

-- `batt.get("plugged", "UNPLUGGED")`
abbrev pub plugged_of : Option Text → Text
plugged_of none = unplugged
plugged_of (some p) = p

unfoldable pub on_power : Reading → Bool
on_power batt =
    member batt.status (codes "CHARGING" ∷ codes "FULL" ∷ [])
    || not (member (or_else (plugged_of batt.plugged) unplugged) (unplugged ∷ [] ∷ []))

-- A line of battery.log that the pattern matches: its time, if it is one, and what it says.
pub record LogLine : Type 0 where
  pub time : Option ℕ
  pub pct : ℕ
  pub discharging : Bool

abbrev pub Sample : Type 0
Sample = ℕ × ℕ

abbrev pub window_sec : ℕ
window_sec = 120 * 60

abbrev add_sample : ℕ → LogLine → List Sample → List Sample
add_sample now line samples = elim line.time [
  | none ↦ samples
  | some ts ↦ if leb (now - ts) window_sec then samples ++ (ts, line.pct) ∷ [] else samples
]

-- The loop over the lines: a charge starts a new discharge.
unfoldable pub samples_of : ℕ → List LogLine → List Sample → List Sample
samples_of now [] samples = samples
samples_of now (line ∷ lines) samples =
    samples_of now lines (if line.discharging then add_sample now line samples else [])

-- The last of a list that begins with `x`.
abbrev pub last_of : Sample → List Sample → Sample
last_of x [] = x
last_of x (y ∷ ys) = last_of y ys

-- A drain of `drop` percent in `sec` seconds.
pub record Drain : Type 0 where
  pub drop : ℕ
  pub sec : ℕ

-- `None` with fewer than two samples, half an hour or one percent.
unfoldable pub drain_of : List Sample → Option Drain
drain_of [] = none
drain_of (x ∷ []) = none
drain_of (x ∷ y ∷ ys) =
    let (t, p) = last_of y ys in
    if ltb (t - x.0) 1800 || ltb (x.1 - p) 1
    then none
    else some (record { drop = x.1 - p; sec = t - x.0 })

unfoldable pub drain_per_hour : ℕ → List LogLine → Option Drain
unfolding samples_of drain_of
drain_per_hour now lines = drain_of (samples_of now lines [])

-- The drain that is assumed without a measured one: `IDLE_DRAIN_PER_H`, 1 % in an hour.
abbrev pub idle_drain : Drain
idle_drain = record { drop = 1; sec = 3600 }

-- Seconds until empty, `pct / rate` hours.
abbrev pub seconds_left : ℕ → Drain → ℕ
seconds_left pct rate = pct * rate.sec / rate.drop

-- `int(pct / rate * 60) if rate and not powered else None`
abbrev pub eta_min : ℕ → Option Drain → Bool → Option ℕ
eta_min pct none powered = none
eta_min pct (some rate) powered = if powered then none else some (seconds_left pct rate / 60)

-- The document that `write_status` leaves for the hub; `previous` is the `last_charged` of the one
-- before. The fuel-gauge fields and `quiet_until`, which the watch does not read, are left out.
unfoldable pub write_status : Reading → ℕ → Option Drain → ℕ → Option ℕ → Status
unfolding on_power
write_status batt pct rate now previous =
    let powered = on_power batt in
    record {
      ts = now;
      pct = some pct;
      status = some batt.status;
      plugged = some (plugged_of batt.plugged);
      on_charger = none;
      eta_min = eta_min pct rate powered;
      last_charged = if powered then some now else previous;
    }
