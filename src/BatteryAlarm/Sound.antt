-- ===== src/BatteryAlarm/Sound.antt =====
-- The state files of the alarm, what it does to the phone, and the start and stop of the locate sound:
-- device/termux/py/stayturgid_battery_alarm.py.
pub mod Counts
use stayturgid.Base.{
  ℕ, Bool, true, false, ◌||◌, ◌&&◌, not, Option, none, some, List, [], ◌∷◌, ◌++◌, ltb,
  if◌then◌else◌,
}
use stayturgid.BatteryWatch.Status.{Status}
use stayturgid.BatteryAlarm.Battery.{LogLine}
use stayturgid.BatteryAlarm.Clock.{quiet_end_h, morning_after_sleep}

-- The files under ~/.stayturgid, as what they say; times in them are kept as local times.
pub record State : Type 0 where
  -- batt_alerted: the tiers alerted since the last charge; `none` is no file
  pub alerted : Option (List ℕ)
  -- quiet_until
  pub quiet_deadline : Option ℕ
  -- batt_evening_done: a date and the slots handled on it
  pub evening_done : Option (ℕ × List ℕ)
  -- batt_continuous_dismissed
  pub dismissed : Bool
  -- batt_sound_stop
  pub stop_flag : Bool
  -- batt_sound.pid of a player that runs: whether it loops. A detached player has written it by the
  -- time that anything looks.
  pub player : Option Bool
  -- battery.log, the lines that the drain is measured by
  pub log : List LogLine
  -- batt_status.json
  pub hub_status : Option Status

-- What the alarm asks of the phone and does not change.
pub record Phone : Type 0 where
  pub sound_file : Bool
  -- `dnd_or_sleep_quiet`
  pub dnd_quiet : Bool

pub data Why : Type 0 where
  ring : Why
  battery : ℕ → Why
  evening : ℕ → Why

pub data Color : Type 0 where
  purple blue green yellow orange red : Color

-- What is done to the phone, in the order of the calls.
pub data Effect : Type 0 where
  -- a detached player: for so many seconds (0: in a loop), why, and after what delay
  spawn : ℕ → Why → ℕ → Effect
  agent_silence media_stop torch_off : Effect
  restore_screen remove_alert remove_night : Effect
  toast_quiet toast_audible : Effect
  blink : Color → ℕ → Bool → Effect
  pulse_torch : ℕ → Effect
  -- the notification of a tier, with sound and vibration or silent
  loud_alert silent_alert : ℕ → ℕ → Effect
  -- the evening notification, with the local time at which the battery is empty
  night_notice : ℕ → ℕ → Effect

abbrev pub Result : Type 0
Result = State × List Effect

unfoldable pub quiet_until : State → ℕ → Bool
quiet_until s now = elim s.quiet_deadline [ none ↦ false | some until ↦ ltb now until ]

abbrev pub is_ring : Why → Bool
is_ring ring = true
is_ring (battery pct) = false
is_ring (evening slot) = false

abbrev pub is_running : Option Bool → Bool
is_running none = false
is_running (some loops) = true

-- The player that starts loops if it is given no seconds.
abbrev pub loops_with : ℕ → Bool
loops_with secs = not (ltb 0 secs)

unfoldable pub start_sound : ℕ → Why → ℕ → ℕ → Phone → State → Result
unfolding quiet_until
start_sound secs why delay now phone s =
    if not phone.sound_file || (not (is_ring why) && quiet_until s now || is_running s.player)
    then (s, [])
    else (
      record s { stop_flag = false; player = some (loops_with secs) },
      spawn secs why delay ∷ [],
    )

-- Whether a player ran comes last.
unfoldable pub stop_sound : Bool → State → State × List Effect × Bool
stop_sound dismiss s = elim s.player [
  | none ↦ (s, [], false)
  | some loops ↦ (
    record s { stop_flag = true; dismissed = s.dismissed || dismiss && loops },
    agent_silence ∷ media_stop ∷ torch_off ∷ [],
    true,
  )
]

unfoldable pub set_quiet : ℕ → State → Result
unfolding stop_sound
set_quiet until s =
    let (s', effects, stopped) = stop_sound true (record s { quiet_deadline = some until }) in
    (s', effects ++ ((if stopped then [] else torch_off ∷ []) ++ (remove_night ∷ toast_quiet ∷ [])))

unfoldable pub quiet_off : State → Result
quiet_off s = (record s { quiet_deadline = none }, toast_audible ∷ [])

-- The commands of `main` that a button or the hub sends. The agent's `quiet-until` gives a time.
pub data Command : Type 0 where
  ring_now : Option ℕ → Command
  stop_now : Command
  quiet_till : ℕ → Command
  quiet_morning : Command
  audible : Command

unfoldable pub command : Command → ℕ → Phone → State → Result
unfolding start_sound set_quiet quiet_off morning_after_sleep
command (ring_now secs) now phone s =
    start_sound (elim secs [ none ↦ 60 | some n ↦ n ]) ring 0 now phone s
command stop_now now phone s =
    let (s', effects, stopped) = stop_sound true s in
    (s', if stopped then effects else torch_off ∷ [])
command (quiet_till until) now phone s = set_quiet until s
command quiet_morning now phone s = set_quiet (morning_after_sleep now quiet_end_h) s
command audible now phone s = quiet_off s
