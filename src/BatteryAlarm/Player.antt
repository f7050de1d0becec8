-- ===== src/BatteryAlarm/Player.antt =====
-- `sound_loop` of device/termux/py/stayturgid_battery_alarm.py, the detached player. Its times are
-- whole milliseconds of the local time; its sleeps are the gaps between what it sees.
pub mod Ends
use stayturgid.Base.{
  ℕ, ◌+◌, ◌*◌, ◌/◌, Bool, true, false, ◌||◌, ◌&&◌, not, Option, none, some, List, [], ◌∷◌, ltb, leb,
  if◌then◌else◌,
}
use stayturgid.BatteryAlarm.Clock.{quiet_hours}
use stayturgid.BatteryAlarm.Sound.{Why, is_ring}

-- What the player sees each time that it looks. The tests that the source makes one after another
-- without sleeping see the same.
pub record Look : Type 0 where
  pub now : ℕ
  -- batt_sound_stop exists
  pub stop : Bool
  -- `on_power(read_battery())`
  pub powered : Bool
  -- `quiet_until()`
  pub quiet : Bool

pub data Ending : Type 0 where
  stopped over night quieted power : Ending

-- When each clip was started, and why the player ended; `none` is a player that still runs when the
-- looks end.
abbrev pub Played : Type 0
Played = List ℕ × Option Ending

-- The delay: the looks until the time has come or the sound is stopped.
unfoldable pub sleep_until : ℕ → List Look → List Look
sleep_until wake [] = []
sleep_until wake (l ∷ ls) =
    let rest = sleep_until wake ls in if ltb l.now wake && not l.stop then rest else l ∷ ls

-- The tests at the head of the loop and of its body, in their order.
unfoldable pub ending_at : ℕ → ℕ → Why → Look → Option Ending
ending_at secs end why l =
    if l.stop
    then some stopped
    else if ltb 0 secs && leb end l.now
    then some over
    else if not (ltb 0 secs) && quiet_hours (l.now / 1000)
    then some night
    else if not (is_ring why) && l.quiet
    then some quieted
    else if not (is_ring why) && l.powered
    then some power
    else none

unfoldable pub rounds : ℕ → ℕ → Why → List Look → Played
rounds secs end why [] = ([], none)
rounds secs end why (l ∷ ls) =
    let (clips, ending) = rounds secs end why ls in
    elim (ending_at secs end why l) [ some e ↦ ([], some e) | none ↦ (l.now ∷ clips, ending) ]

-- From the notification on; `end` is set just before the first round.
abbrev pub play : ℕ → Why → List Look → Played
play secs why [] = ([], none)
play secs why (l ∷ ls) = rounds secs (l.now + secs * 1000) why (l ∷ ls)

-- After the delay.
unfoldable pub awake : ℕ → Why → List Look → Played
awake secs why [] = ([], none)
awake secs why (l ∷ ls) =
    if l.stop
    then ([], some stopped)
    else if not (is_ring why) && l.powered
    then ([], some power)
    else play secs why ls

unfoldable pub sound_loop : ℕ → ℕ → Why → ℕ → List Look → Played
sound_loop secs delay why started looks =
    awake secs why (sleep_until (started + delay * 1000) looks)
