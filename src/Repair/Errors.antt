-- ===== src/Repair/Errors.antt =====
-- `count_recent_watchdog_errors` and `maybe_notify_error_rate` of device/termux/py/stayturgid_repair.py.
-- Times are whole seconds.
pub mod Limited
use stayturgid.Base.{
  ℕ, ◌+◌, ◌*◌, Bool, true, false, ◌&&◌, Option, none, some, List, [], ◌∷◌, Text, codes, take, leb,
  ltb, if◌then◌else◌,
}
use stayturgid.BatteryUse.Report.{occurs}

abbrev pub error_rate_window_sec : ℕ
error_rate_window_sec = 3600

abbrev pub error_rate_threshold : ℕ
error_rate_threshold = 3

abbrev pub error_rate_cooldown_sec : ℕ
error_rate_cooldown_sec = 3600

-- `strptime` of a local date and time, in seconds since 1970, or its ValueError.
abbrev pub Strptime : Type 0
Strptime = Text → Option ℕ

abbrev in_window : ℕ → Option ℕ → Bool
in_window now none = false
in_window now (some epoch) = leb epoch now && leb now (epoch + error_rate_window_sec)

abbrev pub is_recent_error : Strptime → ℕ → Text → Bool
is_recent_error strptime now line =
    occurs (codes "[repair] ERR:") line && in_window now (strptime (take 19 line))

unfoldable pub count_lines : Strptime → ℕ → List Text → ℕ
count_lines strptime now [] = 0
count_lines strptime now (line ∷ lines) =
    let rest = count_lines strptime now lines in
    if is_recent_error strptime now line then 1 + rest else rest

-- `none` is a log that cannot be read.
unfoldable pub count_recent_watchdog_errors : Strptime → ℕ → Option (List Text) → ℕ
count_recent_watchdog_errors strptime now none = 0
count_recent_watchdog_errors strptime now (some lines) = count_lines strptime now lines

-- A pass: its time, the log, whether termux_api can be imported, whether the removal of the notification
-- succeeds, and whether the stamp file can be removed and written.
pub record Pass : Type 0 where
  pub now : ℕ
  pub log : Option (List Text)
  pub has_tapi : Bool
  pub removal_ok : Bool
  pub can_remove : Bool
  pub can_write : Bool

pub data Result : Type 0 where
  below cleared cooldown : Result
  notified : Result

-- The stamp file's time; a file that is no number reads as 0.
abbrev last_of : Option ℕ → ℕ
last_of none = 0
last_of (some t) = t

abbrev exists_stamp : Option ℕ → Bool
exists_stamp none = false
exists_stamp (some t) = true

-- What it returns, and the stamp file after it.
unfoldable pub maybe_notify_error_rate : Strptime → Pass → Option ℕ → Result × Option ℕ
maybe_notify_error_rate strptime p stamp =
    if ltb (count_recent_watchdog_errors strptime p.now p.log) error_rate_threshold
    then (if exists_stamp stamp && p.has_tapi && p.removal_ok
        then (cleared, if p.can_remove then none else stamp)
        else (below, stamp))
    else if ltb p.now (last_of stamp + error_rate_cooldown_sec)
    then (cooldown, stamp)
    else (notified, if p.can_write then some p.now else stamp)
