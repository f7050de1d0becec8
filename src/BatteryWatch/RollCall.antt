-- ===== src/BatteryWatch/RollCall.antt =====
-- `rollcall` of control/lib/battery_watch.py: once a day, in the hour from 21:00.
pub mod Daily
use stayturgid.Base.{
  ℕ, Bool, true, false, ◌||◌, ◌&&◌, not, Option, none, some, List, [], ◌∷◌, ◌++◌, Text, ltb, ◌==◌,
  if◌then◌else◌,
}
use stayturgid.BatteryWatch.Status.{
  Status, Report, unreachable, empty, known, is_stale, on_charger, pct_or,
}

-- `datetime.fromtimestamp`: the hour and the date of a time, in the local zone.
pub record Calendar : Type 0 where
  pub hour : ℕ → ℕ
  pub date : ℕ → ℕ

pub data Line : Type 0 where
  not_reached : Text → Line
  last_seen : Text → ℕ → ℕ → Line
  unplugged : Text → ℕ → Line

abbrev pub rollcall_h : ℕ
rollcall_h = 21

abbrev pub rollcall_pct : ℕ
rollcall_pct = 50

unfoldable pub line_of : Text → Report → ℕ → List Line
line_of name unreachable now = not_reached name ∷ []
line_of name empty now = []
line_of name (known st) now =
    if is_stale st now
    then last_seen name (pct_or 0 st) st.ts ∷ []
    else if not (on_charger st) && ltb (pct_or 100 st) rollcall_pct
    then unplugged name (pct_or 100 st) ∷ []
    else []

unfoldable pub lines_of : List (Text × Report) → ℕ → List Line
unfolding line_of
lines_of [] now = []
lines_of ((name, r) ∷ rs) now = line_of name r now ++ lines_of rs now

abbrev pub is_date : Option ℕ → ℕ → Bool
is_date none d = false
is_date (some e) d = e == d

abbrev pub if_any : List Line → Option (List Line)
if_any [] = none
if_any (l ∷ ls) = some (l ∷ ls)

-- The roll call, if it is due and has lines, and the date of the last one.
unfoldable pub rollcall :
    Calendar → List (Text × Report) → Option ℕ → ℕ → Option (List Line) × Option ℕ
unfolding lines_of
rollcall cal statuses before now =
    if not (cal.hour now == rollcall_h) || is_date before (cal.date now)
    then (none, before)
    else (if_any (lines_of statuses now), some (cal.date now))
