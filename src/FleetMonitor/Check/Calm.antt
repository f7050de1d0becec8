-- ===== src/FleetMonitor/Check/Calm.antt =====
-- What the steps of a pass say of the health.
use stayturgid.Base.{
  ℕ, ◌+◌, ◌≡◌, refl, ◌∙◌, inl, inr, Bool, Option, List, [], ◌∷◌, arith, Text, Option-cases,
}
use stayturgid.FleetHealth.Report.{Source, watchdog_log, agent_log, Entry, Report}
use stayturgid.FleetMonitor.Stamps.{Stamp, Device, Switches, Result}
use stayturgid.FleetMonitor.Heal.{
  Route, maybe_heal_agent, maybe_heal_repair_stale, maybe_heal_sshd_via_tasker,
}
use stayturgid.FleetMonitor.Fallback.{try_cf_runagent_repair, try_firerpa_heal_fallback}
use stayturgid.FleetMonitor.Hints.{minus, hinted, log_hints, log_cleared, log_issue_hints}
use stayturgid.Base.{sorted_set}
use stayturgid.FleetMonitor.Tasker.{
  nag_tasker_failed, nag_tasker_stopped, nag_tasker_advisory, probe_tasker, nag_tasker_unproven,
  test_tasker, maybe_nag_tasker_recover,
}
use stayturgid.FleetMonitor.Devlog.{
  Epoch, newer, lines_of, first_source, other_source, report_lines, report_source,
  report_device_log_failures,
}
use stayturgid.FleetMonitor.Check.{
  Found, and_then, notice_debugging_dialog, notice_app_compat_dialog, alert_divergence,
  issue_events, record_events, note_issues, alert_health, count_failure,
}
use stayturgid.FleetMonitor.Check.Balance.{
  alerts, recoveries, alerts-append, recoveries-append, Balanced, Calm, Calm-and_then,
}

pub heal_agent-Calm :
    (w : Switches) (issues : List Text) (fails : ℕ) (script ran : Bool) (now : ℕ) (s : Device)
    → Calm s (maybe_heal_agent w issues fails script ran now s)
unfolding maybe_heal_agent
heal_agent-Calm w issues fails script ran now s = ground arith

pub heal_repair-Calm :
    (w : Switches) (issues : List Text) (fails : ℕ) (path : Route) (ran : Bool) (now : ℕ)
    (s : Device)
    → Calm s (maybe_heal_repair_stale w issues fails path ran now s)
unfolding maybe_heal_repair_stale
heal_repair-Calm w issues fails path ran now s = ground arith

pub heal_sshd-Calm :
    (w : Switches) (path : Route) (r : Report) (target : Option Text) (ran : Bool) (now : ℕ)
    (s : Device)
    → Calm s (maybe_heal_sshd_via_tasker w path r target ran now s)
unfolding maybe_heal_sshd_via_tasker
heal_sshd-Calm w path r target ran now s = ground arith

pub tasker-Calm :
    (w : Switches) (r : Report) (target : Option Text) (ran : Bool) (now : ℕ) (s : Device)
    → Calm s (maybe_nag_tasker_recover w r target ran now s)
unfolding maybe_nag_tasker_recover nag_tasker_advisory and_then
tasker-Calm w r target ran now s =
    Calm-and_then s (nag_tasker_advisory r now s) (test_tasker w r target ran now)
      (Calm-and_then s (nag_tasker_failed r now s) (nag_tasker_stopped r now) (failed_calm s)
        (stopped_calm (nag_tasker_failed r now s).0))
      (test_calm (nag_tasker_advisory r now s).0)
  where
    failed_calm : (t : Device) → Calm t (nag_tasker_failed r now t)
    failed_calm t = unfold nag_tasker_failed in ground arith

    stopped_calm : (t : Device) → Calm t (nag_tasker_stopped r now t)
    stopped_calm t = unfold nag_tasker_stopped in ground arith

    probe_calm : (t : Device) → Calm t (probe_tasker w target ran now t)
    probe_calm t = unfold probe_tasker in ground arith

    unproven_calm : (prior : Stamp) (t : Device) → Calm t (nag_tasker_unproven prior now t)
    unproven_calm prior t = unfold nag_tasker_unproven in ground arith

    test_calm : (t : Device) → Calm t (test_tasker w r target ran now t)
    test_calm t =
        let k =
          Calm-and_then t (probe_tasker w target ran now t) (nag_tasker_unproven t.tasker_probe now)
            (probe_calm t) (unproven_calm t.tasker_probe (probe_tasker w target ran now t).0) in
        unfold test_tasker in ground (arith, k)

report_lines_calm :
    (epoch : Epoch) (source : Source) (last : ℕ) (lines : List Text) (newest : ℕ)
    → (alerts (report_lines epoch source last lines newest).0 ≡ 0)
      × (recoveries (report_lines epoch source last lines newest).0 ≡ 0)
unfolding report_lines
report_lines_calm epoch source last [] newest = (refl, refl)
report_lines_calm epoch source last (line ∷ lines) newest = elim (Option-cases (epoch line)) [
  | inl undated ↦ ground (arith, report_lines_calm epoch source last lines newest)
  | inr (e, dated) ↦ ground (
    arith,
    report_lines_calm epoch source last lines newest,
    report_lines_calm epoch source last lines (newer e newest),
  )
]

report_source-Calm :
    (epoch : Epoch) (source : Source) (es : List Entry) (s : Device)
    → Calm s (report_source epoch source es s)
unfolding report_source
report_source-Calm epoch watchdog_log es s = ground (
  arith,
  report_lines_calm epoch watchdog_log s.watchdog_epoch (lines_of watchdog_log es) s.watchdog_epoch,
)
report_source-Calm epoch agent_log es s =
    ground
      (arith, report_lines_calm epoch agent_log s.agent_epoch (lines_of agent_log es) s.agent_epoch)

pub devlog-Calm :
    (epoch : Epoch) (es : List Entry) (s : Device) → Calm s (report_device_log_failures epoch es s)
unfolding report_device_log_failures and_then
devlog-Calm epoch es s =
    let first = first_source es in
    Calm-and_then s (report_source epoch first es s) (report_source epoch (other_source first) es)
      (report_source-Calm epoch first es s)
      (report_source-Calm epoch (other_source first) es (report_source epoch first es s).0)

issue_events_calm :
    (issues : List Text)
    → (alerts (issue_events issues) ≡ 0) × (recoveries (issue_events issues) ≡ 0)
issue_events_calm [] = (refl, refl)
issue_events_calm (i ∷ is) = issue_events_calm is

pub record_events-Calm : (issues : List Text) (s : Device) → Calm s (record_events issues s)
unfolding record_events
record_events-Calm issues s = (refl, (issue_events_calm issues).0, (issue_events_calm issues).1)

pub divergence-Calm :
    (path : Route) (r : Report) (now : ℕ) (s : Device) → Calm s (alert_divergence path r now s)
unfolding alert_divergence
divergence-Calm path r now s = ground arith

pub dialog-Calm :
    (shown : Bool) (now : ℕ) (s : Device) → Calm s (notice_debugging_dialog shown now s)
unfolding notice_debugging_dialog
dialog-Calm shown now s = ground arith

pub app_compat-Calm :
    (shown : Bool) (now : ℕ) (s : Device) → Calm s (notice_app_compat_dialog shown now s)
unfolding notice_app_compat_dialog
app_compat-Calm shown now s = ground arith

-- The end of the pass: the failure is counted, the heals say nothing, and the alarm is raised at 2.
pub count_failure-Balanced :
    (w : Switches) (f : Found) (path : Route) (issues : List Text) (now : ℕ) (s : Device)
    → Balanced s (count_failure w f path issues now s)
unfolding count_failure
count_failure-Balanced w f path issues now s =
    let fails = s.fails + 1 in
    let s0 : Device = record s { fails = fails } in
    let heal = maybe_heal_repair_stale w issues fails path f.repair_ran now s0 in
    let agent = maybe_heal_agent w issues fails f.script f.agent_ran now in
    let calm =
      Calm-and_then s0 heal agent (heal_repair-Calm w issues fails path f.repair_ran now s0)
        (heal_agent-Calm w issues fails f.script f.agent_ran now heal.0) in
    let r = and_then heal agent in
    unfold and_then in
    ground (
      arith,
      calm,
      alerts-append r.1 (alert_health issues fails r.0).1,
      recoveries-append r.1 (alert_health issues fails r.0).1,
    )

log_hints_calm : (is : List Text) → (alerts (log_hints is) ≡ 0) × (recoveries (log_hints is) ≡ 0)
log_hints_calm [] = (refl, refl)
log_hints_calm (i ∷ is) = log_hints_calm is

log_cleared_calm :
    (is : List Text) → (alerts (log_cleared is) ≡ 0) × (recoveries (log_cleared is) ≡ 0)
log_cleared_calm [] = (refl, refl)
log_cleared_calm (i ∷ is) = log_cleared_calm is

log_issue_hints-Calm : (issues : List Text) (s : Device) → Calm s (log_issue_hints issues s)
unfolding log_issue_hints
log_issue_hints-Calm issues s =
    let now = sorted_set (hinted issues) in
    let new = minus now s.hints in
    let old = sorted_set (minus s.hints now) in
    (
      refl,
      alerts-append (log_hints new) (log_cleared old)
          ∙ omega (arith, (log_hints_calm new).0, (log_cleared_calm old).0),
      recoveries-append (log_hints new) (log_cleared old)
          ∙ omega (arith, (log_hints_calm new).1, (log_cleared_calm old).1),
    )

pub note_issues-Calm : (issues : List Text) (s : Device) → Calm s (note_issues issues s)
unfolding note_issues
note_issues-Calm issues s =
    Calm-and_then s (log_issue_hints issues s) (record_events issues)
      (log_issue_hints-Calm issues s) (record_events-Calm issues (log_issue_hints issues s).0)

pub cf_runagent-Calm :
    (known answers config : Bool) (now : ℕ) (s : Device)
    → Calm s (try_cf_runagent_repair known answers config now s)
unfolding try_cf_runagent_repair
cf_runagent-Calm known answers config now s = ground arith

pub firerpa-Calm :
    (known answers : Bool) (now : ℕ) (s : Device)
    → Calm s (try_firerpa_heal_fallback known answers now s)
unfolding try_firerpa_heal_fallback
firerpa-Calm known answers now s = ground arith

pub Calm-Balanced : (s : Device) (r : Result) → Calm s r → Balanced s r
Calm-Balanced s r h = ground (arith, h)
