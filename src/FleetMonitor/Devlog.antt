-- ===== src/FleetMonitor/Devlog.antt =====
-- `_devlog_severity` and `_report_device_log_failures` of control/bin/fleet_health_monitor.py.
pub mod Once
use stayturgid.Base.{
  ℕ, Bool, true, false, ◌&&◌, Option, none, some, List, [], ◌∷◌, ◌++◌, Text, codes, ltb, leb,
  if◌then◌else◌, strip, take,
}
use stayturgid.FleetHealth.Report.{Source, watchdog_log, agent_log, Entry}
use stayturgid.FleetHealth.Evaluate.{starts_with}
use stayturgid.FleetMonitor.Stamps.{Device, Action, log_failure, Result}

-- `re.search` of the pattern `\[repair\] (ERR|WARNING):`.
unfoldable pub has_severity : Text → Bool
has_severity [] = false
has_severity (c ∷ s) =
    let later = has_severity s in
    if starts_with (codes "[repair] ERR:") (c ∷ s)
    then true
    else if starts_with (codes "[repair] WARNING:") (c ∷ s)
    then true
    else later

-- Whether `_devlog_severity` gives one.
abbrev pub is_failure : Source → Text → Bool
is_failure watchdog_log line = has_severity line
is_failure agent_log line = true

-- `_device_log_epoch`, to whole seconds; `none` is a line without a time. It reads dates in the
-- local zone.
abbrev pub Epoch : Type 0
Epoch = Text → Option ℕ

-- What the loop over the lines of one source carries: what it reports and the newest epoch.
abbrev pub Report : Type 0
Report = List Action × ℕ

abbrev pub max_message : ℕ
max_message = 500

abbrev pub newer : ℕ → ℕ → ℕ
newer epoch newest = if ltb newest epoch then epoch else newest

-- The lines in order, with the epoch last reported before them.
unfoldable pub report_lines : Epoch → Source → ℕ → List Text → ℕ → Report
report_lines epoch source last [] newest = ([], newest)
report_lines epoch source last (line ∷ lines) newest =
    let skip = report_lines epoch source last lines newest in
    if is_failure source line
    then elim (epoch line) [
      | none ↦ skip
      | some e ↦
          let (actions, new) = report_lines epoch source last lines (newer e newest) in
          (if leb e last
            then skip
            else (log_failure source (take max_message (strip line)) ∷ actions, new))
    ]
    else skip

abbrev pub is_source : Source → Source → Bool
is_source watchdog_log watchdog_log = true
is_source watchdog_log agent_log = false
is_source agent_log watchdog_log = false
is_source agent_log agent_log = true

-- `by_source[source]`
unfoldable pub lines_of : Source → List Entry → List Text
lines_of source [] = []
lines_of source ((other, line) ∷ es) =
    let rest = lines_of source es in if is_source source other then line ∷ rest else rest

abbrev pub epoch_of : Source → Device → ℕ
epoch_of watchdog_log s = s.watchdog_epoch
epoch_of agent_log s = s.agent_epoch

abbrev pub with_epoch : Source → ℕ → Device → Device
with_epoch watchdog_log e s = record s { watchdog_epoch = e }
with_epoch agent_log e s = record s { agent_epoch = e }

-- The round of one source.
unfoldable pub report_source : Epoch → Source → List Entry → Device → Result
unfolding report_lines lines_of
report_source epoch source es s =
    let last = epoch_of source s in
    let (actions, newest) = report_lines epoch source last (lines_of source es) last in
    (if ltb last newest then with_epoch source newest s else s, actions)

-- The sources in the order in which the entries name them first; one that they do not name has no
-- lines, and its round does nothing.
abbrev pub first_source : List Entry → Source
first_source [] = watchdog_log
first_source ((source, line) ∷ es) = source

abbrev pub other_source : Source → Source
other_source watchdog_log = agent_log
other_source agent_log = watchdog_log

unfoldable pub report_device_log_failures : Epoch → List Entry → Device → Result
report_device_log_failures epoch es s =
    let first = first_source es in
    let (s', actions) = report_source epoch first es s in
    let (s'', more) = report_source epoch (other_source first) es s' in (s'', actions ++ more)
