-- ===== src/BatteryAlarm/Examples.antt =====
-- Runs of the battery alarm on one phone.
use stayturgid.Base.{
  ℕ, ◌+◌, ◌≤◌, ◌≡◌, refl, Bool, true, false, Option, none, some, List, [], ◌∷◌, arith, Text, codes,
  if◌then◌else◌,
}
use stayturgid.BatteryAlarm.Clock.{quiet_hours}
use stayturgid.BatteryAlarm.Battery.{
  Reading, LogLine, Drain, on_power, samples_of, drain_of, drain_per_hour,
}
use stayturgid.BatteryAlarm.Sound.{State, Phone, battery, evening}
use stayturgid.BatteryAlarm.Player.{Look, sleep_until, ending_at, rounds, awake, sound_loop}
use stayturgid.BatteryAlarm.Sound.Counts.{alerts}
use stayturgid.BatteryAlarm.Evening.{number_member}
use stayturgid.BatteryAlarm.Pass.{alerted_tiers, pass}
use stayturgid.BatteryAlarm.Pass.Notices.{Input, Notifies, pass-Notifies}
use stayturgid.BatteryAlarm.Pass.Once.{passes, tier_once, pass_forgets}

abbrev reading : Text → ℕ → Reading
reading status pct = record {
  percentage = some pct;
  status = status;
  plugged = some (codes "UNPLUGGED");
}

abbrev draining : ℕ → Reading
draining pct = reading (codes "DISCHARGING") pct

abbrev charging : ℕ → Reading
charging pct = reading (codes "CHARGING") pct

abbrev phone : Phone
phone = record { sound_file = true; dnd_quiet = false }

-- A state in which the tiers `ts` were alerted.
abbrev state_after : Option (List ℕ) → State
state_after ts = record {
  alerted = ts;
  quiet_deadline = none;
  evening_done = none;
  dismissed = false;
  stop_flag = false;
  player = none;
  log = [];
  hub_status = none;
}

abbrev noon : ℕ
noon = 43200

abbrev log_at : ℕ → ℕ → Bool → LogLine
log_at t pct discharging = record { time = some t; pct = pct; discharging = discharging }

abbrev discharge : List LogLine
discharge = log_at 40000 50 true ∷ log_at 43000 47 true ∷ []

abbrev measured : Drain
measured = record { drop = 3; sec = 3000 }

drain_measured : drain_per_hour noon discharge ≡ some measured
unfolding drain_per_hour samples_of drain_of
drain_measured = refl

pass-Notifies_example :
    (u : ℕ) × Notifies 14 u
      (state_after none)
      (pass (some (draining 14)) noon phone (state_after none)).0
      (pass (some (draining 14)) noon phone (state_after none)).1
unfolding on_power
pass-Notifies_example =
    pass-Notifies (draining 14) 14 noon phone (state_after none) (refl, refl, omega arith)

abbrev inputs : List Input
inputs = (draining 14, noon, phone) ∷ (draining 12, noon + 900, phone) ∷ []

tier_once_example :
    alerts 15 (passes inputs (state_after none)).1
    ≤ (if number_member 15 (alerted_tiers (state_after none)) then 0 else 1)
unfolding on_power
tier_once_example =
    tier_once 15 inputs (state_after none)
      ((14, (refl, refl, omega arith)), ((12, (refl, refl, omega arith)), tt))

pass_forgets_example :
    (pass (some (charging 14)) noon phone (state_after (some (15 ∷ [])))).0.alerted ≡ none
unfolding on_power
pass_forgets_example =
    pass_forgets (charging 14) 14 noon phone (state_after (some (15 ∷ []))) refl refl

-- A loop that power ends at its third clip.
abbrev look_at : ℕ → Bool → Look
look_at now powered = record { now = now; stop = false; powered = powered; quiet = false }

abbrev first_looks : List Look
first_looks =
    look_at 43200000 false
    ∷ look_at 43200100 false
    ∷ look_at 43204100 false
    ∷ look_at 43208100 false
    ∷ []

clips_of_five : (sound_loop 5 0 (battery 25) 43200000 first_looks).0 ≡ 43200100 ∷ 43204100 ∷ []
unfolding sound_loop sleep_until awake rounds ending_at
clips_of_five = refl

-- A sound for the slot at 20:55 that a pass at 20:59:50 starts is still heard at 21:00:06: only a
-- loop minds the quiet hours.
evening_spill :
    (sound_loop 60 0
      (evening 2055)
      75590000
      (look_at 75590000 false ∷ look_at 75590100 false ∷ look_at 75606100 false ∷ [])).0
    ≡ 75590100 ∷ 75606100 ∷ []
unfolding sound_loop sleep_until awake rounds ending_at
evening_spill = refl

quiet_then : quiet_hours 75606 ≡ true
unfolding quiet_hours
quiet_then = refl
