-- ===== src/BatteryAlarm/Pass.antt =====
-- One pass of the alarm, `main` without a command: device/termux/py/stayturgid_battery_alarm.py.
-- The clock stands still during a pass.
pub mod Tiers
pub mod Notices
pub mod Once
pub mod Silence
use stayturgid.Base.{
  ℕ, Bool, true, false, ◌||◌, ◌&&◌, not, Option, none, some, List, [], ◌∷◌, ◌++◌, codes, text_eq,
  is_empty, ltb, leb, ◌==◌, if◌then◌else◌,
}
use stayturgid.BatteryWatch.Status.{Status}
use stayturgid.BatteryAlarm.Clock.{quiet_hours}
use stayturgid.BatteryAlarm.Battery.{
  Reading, LogLine, Drain, on_power, drain_per_hour, write_status,
}
use stayturgid.BatteryAlarm.Sound.{
  State, Phone, Why, battery, Color, purple, blue, green, yellow, orange, red, Effect, blink,
  pulse_torch, loud_alert, silent_alert, restore_screen, remove_alert, Result, quiet_until,
  is_running, start_sound, stop_sound,
}
use stayturgid.BatteryAlarm.Evening.{number_member, evening_check}

unfoldable pub tiers : List ℕ
tiers = 30 ∷ 25 ∷ 20 ∷ 15 ∷ 10 ∷ 5 ∷ 4 ∷ 3 ∷ 2 ∷ 1 ∷ 0 ∷ []

abbrev pub top_tier : ℕ
top_tier = 30

unfoldable pub applicable : ℕ → List ℕ → List ℕ
applicable pct [] = []
applicable pct (t ∷ ts) = let rest = applicable pct ts in if leb pct t then t ∷ rest else rest

-- The last applicable tier, if any.
abbrev pub lowest : List ℕ → Option ℕ
lowest [] = none
lowest (t ∷ ts) = elim (lowest ts) [ none ↦ some t | some u ↦ some u ]

unfoldable pub tier_color : ℕ → Color
tier_color t =
    if t == 30
    then purple
    else if t == 25
    then blue
    else if t == 20
    then green
    else if t == 15
    then yellow
    else if t == 10
    then orange
    else red

unfoldable pub tier_blinks : ℕ → ℕ
tier_blinks t =
    if t == 30
    then 1
    else if t == 25
    then 2
    else if t == 20
    then 3
    else if t == 15
    then 4
    else if t == 10
    then 5
    else if leb t 5
    then 10
    else 1

-- `TIER_SOUND_SEC`
unfoldable pub tier_sound : ℕ → Option ℕ
tier_sound t =
    if t == 30
    then some 10
    else if t == 25
    then some 20
    else if t == 20
    then some 30
    else if t == 15
    then some 40
    else if t == 10
    then some 50
    else if t == 5
    then some 60
    else none

abbrev pub tier_start : Option ℕ → ℕ → ℕ → Phone → State → Result
tier_start none pct now phone s = (s, [])
tier_start (some secs) pct now phone s =
    if quiet_hours now then (s, []) else start_sound secs (battery pct) 0 now phone s

-- The screen, the flashlight from 15 % down, and the notification.
unfoldable pub tier_effects : ℕ → ℕ → Bool → List Effect
tier_effects tier pct quiet =
    let blinks = tier_blinks tier in
    blink (tier_color tier) blinks quiet
    ∷ ((if leb tier 15 then pulse_torch (if quiet then 1 else blinks) ∷ [] else [])
        ++ (if quiet then silent_alert pct tier else loud_alert pct tier) ∷ [])

unfoldable pub fire_tier_alert : ℕ → ℕ → Bool → ℕ → Phone → State → Result
fire_tier_alert tier pct quiet now phone s =
    let (s', effects) = tier_start (tier_sound tier) pct now phone s in
    (s', effects ++ tier_effects tier pct quiet)

abbrev pub tiers_of : Option (List ℕ) → List ℕ
tiers_of none = []
tiers_of (some ts) = ts

abbrev pub alerted_tiers : State → List ℕ
alerted_tiers s = tiers_of s.alerted

-- `mark_alerted` of each tier of a list.
unfoldable pub mark_alerted : List ℕ → List ℕ → List ℕ
mark_alerted [] marked = marked
mark_alerted (t ∷ ts) marked =
    mark_alerted ts (if number_member t marked then marked else marked ++ t ∷ [])

unfoldable pub clear_alert_state : State → Result
clear_alert_state s = elim s.alerted [
  | none ↦ (s, remove_alert ∷ [])
  | some ts ↦ (record s { alerted = none }, restore_screen ∷ remove_alert ∷ [])
]

abbrev pub continuous_pct : ℕ
continuous_pct = 2

-- The loop at 2 % and below, unless it was dismissed.
unfoldable pub continuous : ℕ → ℕ → Phone → State → Result
continuous pct now phone s =
    if leb pct continuous_pct
      && (not (quiet_hours now) && (not s.dismissed && not (is_running s.player)))
    then start_sound 0 (battery pct) 0 now phone s
    else (s, [])

-- The lowest applicable tier is alerted, unless it was, and every applicable one is marked.
unfoldable pub alert_tier : Option ℕ → ℕ → ℕ → Phone → State → Result
alert_tier none pct now phone s = (s, [])
alert_tier (some t) pct now phone s =
    if number_member t (alerted_tiers s)
    then (s, [])
    else (let (s', effects) =
          fire_tier_alert t pct (quiet_until s now || phone.dnd_quiet) now phone s in
        (
          record s' { alerted = some (mark_alerted (applicable pct tiers) (alerted_tiers s')) },
          effects,
        ))

-- The end of `main`, without power at 30 % and below.
unfoldable pub alert_stage : ℕ → ℕ → Phone → State → Result
alert_stage pct now phone s =
    let (s', effects) = alert_tier (lowest (applicable pct tiers)) pct now phone s in
    let (s'', more) = continuous pct now phone s' in (s'', effects ++ more)

-- The line that the pass writes to battery.log, if the pattern of `drain_per_hour` matches it.
abbrev log_line : Reading → ℕ → ℕ → List LogLine
log_line batt pct now =
    if is_empty batt.status
    then []
    else record {
      time = some now;
      pct = pct;
      discharging = text_eq batt.status (codes "DISCHARGING");
    }
      ∷ []

abbrev last_charged : Option Status → Option ℕ
last_charged none = none
last_charged (some st) = st.last_charged

-- The log line and the status for the hub, with the drain that was measured.
unfoldable pub report_battery : Reading → ℕ → ℕ → State → Option Drain × State
report_battery batt pct now s =
    let log = s.log ++ log_line batt pct now in
    let rate = if on_power batt then none else drain_per_hour now log in
    (
      rate,
      record s {
        log = log;
        hub_status = some (write_status batt pct rate now (last_charged s.hub_status));
      },
    )

-- Power: the sound stops and may be dismissed anew. No power: the evening warnings.
unfoldable pub power_stage : Bool → ℕ → Option Drain → ℕ → Phone → State → Result
power_stage true pct rate now phone s =
    let (s', effects, stopped) = stop_sound false s in (record s' { dismissed = false }, effects)
power_stage false pct rate now phone s = evening_check pct rate now phone s

unfoldable pub pass_reading : Reading → ℕ → ℕ → Phone → State → Result
pass_reading batt pct now phone s =
    let (rate, s1) = report_battery batt pct now s in
    let (s2, effects) = power_stage (on_power batt) pct rate now phone s1 in
    let (s3, more) =
      if on_power batt || ltb top_tier pct
      then clear_alert_state s2
      else alert_stage pct now phone s2 in
    (s3, effects ++ more)

-- `None` is an empty or invalid answer of `termux-battery-status`.
unfoldable pub pass : Option Reading → ℕ → Phone → State → Result
pass none now phone s = (s, [])
pass (some batt) now phone s = elim batt.percentage [
  | none ↦ (s, [])
  | some pct ↦ pass_reading batt pct now phone s
]
