-- ===== src/FleetMonitor/Check.antt =====
-- `check_device` of control/bin/fleet_health_monitor.py: one pass over one phone. Left out are the
-- scrape of its error logs, the snapshot for the statistics and the Google stack heal of one device.
pub mod Balance
pub mod Calm
pub mod Alarm
use stayturgid.Base.{
  ℕ, ◌+◌, ◌*◌, Bool, true, false, ◌||◌, ◌&&◌, not, Option, none, some, List, [], ◌∷◌, ◌++◌, Text,
  codes, leb, ◌==◌, if◌then◌else◌,
}
use stayturgid.FleetHealth.Report.{Entry, Report}
use stayturgid.FleetHealth.Evaluate.{has, evaluate_health}
use stayturgid.FleetMonitor.Stamps.{
  Stamp, Device, Switches, Action, dismiss_app_compat, debugging_dialog_notice, app_compat_notice,
  divergence_alert, health_alert, health_recovered, path_event, issue_event, cooldown_ok, Result,
}
use stayturgid.FleetMonitor.Heal.{
  Route, is_adb, maybe_heal_agent, maybe_heal_repair_stale, maybe_heal_sshd_via_tasker,
}
use stayturgid.FleetMonitor.Fallback.{try_cf_runagent_repair, try_firerpa_heal_fallback}
use stayturgid.FleetMonitor.Hints.{log_issue_hints}
use stayturgid.FleetMonitor.Tasker.{has_target, maybe_nag_tasker_recover}
use stayturgid.FleetMonitor.Devlog.{Epoch, report_device_log_failures}

abbrev pub consecutive_limit : ℕ
consecutive_limit = 2

abbrev pub dialog_cooldown_sec : ℕ
dialog_cooldown_sec = 30 * 60

abbrev pub divergence_cooldown_sec : ℕ
divergence_cooldown_sec = 6 * 60 * 60

-- What `probe_device` returns for a phone that is reached; `missing` is the number of services that
-- its profile lists and that do not run.
pub record Scrape : Type 0 where
  pub path : Route
  pub report : Report
  pub devlog : List Entry
  pub missing : ℕ

-- What the pass finds: the maintenance file, the phone's address for adb, the dialogs on its screen,
-- the probe, and whether each of the commands that may follow succeeds.
pub record Found : Type 0 where
  pub maintenance : Bool
  pub target : Option Text
  pub debugging_dialog : Bool
  pub app_compat_dialog : Bool
  pub scrape : Option Scrape
  pub script : Bool
  pub sshd_ran : Bool
  pub probe_ran : Bool
  pub repair_ran : Bool
  pub agent_ran : Bool
  -- its address in the tailnet is known, the ports of CFEngine and FIRERPA answer on it, and
  -- cf-runagent has its configuration
  pub known : Bool
  pub cf_open : Bool
  pub firerpa_open : Bool
  pub cf_config : Bool

-- One step after another.
unfoldable pub and_then : Result → (Device → Result) → Result
and_then (s, actions) f = let (s', more) = f s in (s', actions ++ more)

unfoldable pub notice_debugging_dialog : Bool → ℕ → Device → Result
notice_debugging_dialog shown now s =
    if shown && cooldown_ok s.debugging_dialog now dialog_cooldown_sec
    then (record s { debugging_dialog = some now }, debugging_dialog_notice ∷ [])
    else (s, [])

unfoldable pub notice_app_compat_dialog : Bool → ℕ → Device → Result
notice_app_compat_dialog shown now s =
    if not shown
    then (s, [])
    else if cooldown_ok s.app_compat_dialog now dialog_cooldown_sec
    then (record s { app_compat_dialog = some now }, dismiss_app_compat ∷ app_compat_notice ∷ [])
    else (s, dismiss_app_compat ∷ [])

-- adb reaches the phone, and its own log says that the port is closed.
unfoldable pub alert_divergence : Route → Report → ℕ → Device → Result
alert_divergence path r now s =
    if is_adb path
      && (has r (codes "port") (codes "CLOSED_NO_SHELL")
          && cooldown_ok s.divergence now divergence_cooldown_sec)
    then (record s { divergence = some now }, divergence_alert ∷ [])
    else (s, [])

abbrev pub issue_events : List Text → List Action
issue_events [] = []
issue_events (i ∷ is) = issue_event i ∷ issue_events is

unfoldable pub record_events : List Text → Device → Result
record_events issues s = (s, path_event ∷ issue_events issues)

unfoldable pub note_issues : List Text → Device → Result
note_issues issues s = and_then (log_issue_hints issues s) (record_events issues)

-- `if fails == CONSECUTIVE_LIMIT`, at the end of the pass.
abbrev pub alert_health : List Text → ℕ → Device → Result
alert_health issues fails s =
    (s, if fails == consecutive_limit then health_alert issues ∷ [] else [])

unfoldable pub count_failure : Switches → Found → Route → List Text → ℕ → Device → Result
unfolding and_then
count_failure w f path issues now s =
    let fails = s.fails + 1 in
    and_then
      (and_then
        (maybe_heal_repair_stale w issues fails path f.repair_ran now (record s { fails = fails }))
        (maybe_heal_agent w issues fails f.script f.agent_ran now))
      (alert_health issues fails)

unfoldable pub count_success : Device → Result
count_success s =
    (record s { fails = 0 }, if leb consecutive_limit s.fails then health_recovered ∷ [] else [])

-- The count of the consecutive failures, the heals and the alarm.
unfoldable pub count : Switches → Found → Route → List Text → ℕ → Device → Result
unfolding count_failure count_success
count w f path [] now s = count_success s
count w f path (i ∷ is) now s = count_failure w f path (i ∷ is) now s

unfoldable pub check_scrape : Switches → Epoch → Found → Scrape → ℕ → Device → Result
check_scrape w epoch f c now s =
    let issues = evaluate_health c.missing c.report in
    and_then
      (and_then
        (and_then
          (and_then
            (and_then (alert_divergence c.path c.report now s)
              (maybe_heal_sshd_via_tasker w c.path c.report f.target f.sshd_ran now))
            (note_issues issues))
          (report_device_log_failures epoch c.devlog))
        (maybe_nag_tasker_recover w c.report f.target f.probe_ran now))
      (count w f c.path issues now)

unfoldable pub check_found : Switches → Epoch → Found → Option Scrape → ℕ → Device → Result
unfolding check_scrape
check_found w epoch f none now s =
    and_then (try_cf_runagent_repair f.known f.cf_open f.cf_config now s)
      (try_firerpa_heal_fallback f.known f.firerpa_open now)
check_found w epoch f (some c) now s = check_scrape w epoch f c now s

unfoldable pub check_device : Switches → Epoch → Found → ℕ → Device → Result
check_device w epoch f now s =
    if f.maintenance
    then (record s { fails = 0 }, [])
    else and_then
        (and_then (notice_debugging_dialog (has_target f.target && f.debugging_dialog) now s)
          (notice_app_compat_dialog (has_target f.target && f.app_compat_dialog) now))
        (check_found w epoch f f.scrape now)
