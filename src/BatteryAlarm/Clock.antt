-- ===== src/BatteryAlarm/Clock.antt =====
-- Local time in device/termux/py/stayturgid_battery_alarm.py: a naive `datetime` as the number of
-- seconds since some midnight, and the sleeping window from 21:00 to 09:00.
pub mod Morning
use stayturgid.Base.{ℕ, ◌+◌, ◌*◌, ◌/◌, ◌%◌, Bool, ◌||◌, ltb, leb, if◌then◌else◌}

abbrev pub day_sec : ℕ
day_sec = 86400

abbrev pub hour : ℕ → ℕ
hour t = t % 86400 / 3600

abbrev pub date : ℕ → ℕ
date t = t / 86400

-- The time `h:m` on the date of `t`.
abbrev pub at_time : ℕ → ℕ → ℕ → ℕ
at_time t h m = date t * 86400 + h * 3600 + m * 60

abbrev pub quiet_start_h : ℕ
quiet_start_h = 21

abbrev pub quiet_end_h : ℕ
quiet_end_h = 9

unfoldable pub quiet_hours : ℕ → Bool
quiet_hours now = leb quiet_start_h (hour now) || ltb (hour now) quiet_end_h

unfoldable pub morning_after_sleep : ℕ → ℕ → ℕ
morning_after_sleep now h =
    (if ltb (hour now) quiet_end_h then date now else date now + 1) * 86400 + h * 3600
