-- ===== src/BatteryAlarm/Clock/Morning.antt =====
-- Where quiet mode ends.
use stayturgid.Base.{ℕ, ◌+◌, ◌*◌, ◌≤◌, ◌<◌, ◌≡◌, true, false, arith}
use stayturgid.BatteryAlarm.Clock.{quiet_end_h, quiet_hours, morning_after_sleep}

-- "Quiet until morning", pressed in the quiet hours, ends later, within twelve hours, at a time
-- that is not quiet, and every time from then until its end is quiet.
pub morning_after_sleep_ends :
    (now t : ℕ)
    → quiet_hours now ≡ true
    → now ≤ t
    → t < morning_after_sleep now quiet_end_h
    → (quiet_hours t ≡ true)
      × (quiet_hours (morning_after_sleep now quiet_end_h) ≡ false)
      × (now < morning_after_sleep now quiet_end_h)
      × (morning_after_sleep now quiet_end_h ≤ now + 12 * 3600)
unfolding quiet_hours morning_after_sleep
morning_after_sleep_ends now t q le lt = ground arith
