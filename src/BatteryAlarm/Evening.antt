-- ===== src/BatteryAlarm/Evening.antt =====
-- `evening_check` of device/termux/py/stayturgid_battery_alarm.py: the warnings for 18:55, 19:55 and
-- 20:55 if the phone is predicted dead before 10:00 tomorrow.
pub mod Slots
use stayturgid.Base.{
  ℕ, ◌+◌, ◌*◌, ◌-◌, ◌/◌, Bool, true, false, ◌||◌, ◌&&◌, not, Option, none, some, List, [], ◌∷◌,
  ◌++◌, ltb, leb, ◌==◌, if◌then◌else◌,
}
use stayturgid.BatteryAlarm.Clock.{date, at_time}
use stayturgid.BatteryAlarm.Battery.{Drain, idle_drain, seconds_left}
use stayturgid.BatteryAlarm.Sound.{
  State, Phone, Why, evening, Effect, night_notice, Result, quiet_until, start_sound,
}

-- A slot's hour, minute and seconds of sound; its key is `hhmm`.
pub record Slot : Type 0 where
  pub h : ℕ
  pub m : ℕ
  pub secs : ℕ

abbrev pub evening_slots : List Slot
evening_slots =
    record { h = 18; m = 55; secs = 15 }
    ∷ record { h = 19; m = 55; secs = 30 }
    ∷ record { h = 20; m = 55; secs = 60 }
    ∷ []

abbrev pub key : Slot → ℕ
key slot = slot.h * 100 + slot.m

abbrev pub number_member : ℕ → List ℕ → Bool
number_member n [] = false
number_member n (m ∷ ms) = m == n || number_member n ms

abbrev pub slot_time : Slot → ℕ → ℕ
slot_time slot now = at_time now slot.h slot.m

-- From 20 minutes before the slot until 5 minutes after it.
abbrev pub in_window : Slot → ℕ → Bool
in_window slot now =
    leb (slot_time slot now) (now + 20 * 60) && ltb now (slot_time slot now + 5 * 60)

-- The keys handled today.
abbrev pub done_today : Option (ℕ × List ℕ) → ℕ → List ℕ
done_today none now = []
done_today (some (d, keys)) now = if d == date now then keys else []

abbrev pub drain_or_idle : Option Drain → Drain
drain_or_idle none = idle_drain
drain_or_idle (some d) = d

abbrev pub dead_at : ℕ → Option Drain → ℕ → ℕ
dead_at pct rate now = now + seconds_left pct (drain_or_idle rate)

-- 10:00 tomorrow.
abbrev pub deadline : ℕ → ℕ
deadline now = at_time (now + 86400) 10 0

-- The warning of a slot that is due.
unfoldable pub warn : Slot → ℕ → Option Drain → ℕ → Phone → State → Result
warn slot pct rate now phone s =
    if leb (deadline now) (dead_at pct rate now)
    then (s, [])
    else (let (s', effects) =
          start_sound slot.secs (evening (key slot)) (slot_time slot now - now) now phone s in
        (s', effects ++ night_notice pct (dead_at pct rate now) ∷ []))

-- The loop over the slots, with the keys handled today.
unfoldable pub check_slots : List Slot → List ℕ → ℕ → Option Drain → ℕ → Phone → State → Result
unfolding warn
check_slots [] keys pct rate now phone s = (s, [])
check_slots (slot ∷ slots) keys pct rate now phone s =
    if number_member (key slot) keys || not (in_window slot now)
    then check_slots slots keys pct rate now phone s
    else (let keys' = keys ++ key slot ∷ [] in
        let (s', effects) =
          warn slot pct rate now phone (record s { evening_done = some (date now, keys') }) in
        let (s'', more) = check_slots slots keys' pct rate now phone s' in (s'', effects ++ more))

unfoldable pub evening_check : ℕ → Option Drain → ℕ → Phone → State → Result
unfolding check_slots
evening_check pct rate now phone s =
    if quiet_until s now
    then (s, [])
    else check_slots evening_slots (done_today s.evening_done now) pct rate now phone s
