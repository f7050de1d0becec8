-- ===== src/FleetMonitor/Examples.antt =====
-- Passes over a phone whose agent does not answer.
use stayturgid.Base.{
  ℕ, ◌+◌, ◌≡◌, refl, true, false, none, some, List, [], ◌∷◌, codes, leb, if◌then◌else◌, get,
}
use stayturgid.FleetHealth.Report.{Report, Entry, agent_log}
use stayturgid.FleetHealth.Evaluate.{
  tasker_recover_stale, tasker_recover_failed, tasker_monitor_stopped,
}
use stayturgid.FleetMonitor.Stamps.{Device, Switches, cooldown_ok}
use stayturgid.FleetMonitor.Heal.{adb, ssh}
use stayturgid.FleetMonitor.Heal.Limits.{AgentInput, RepairInput, SshdInput}
use stayturgid.FleetMonitor.Tasker.{
  maybe_nag_tasker_recover, nag_tasker_advisory, nag_tasker_failed, nag_tasker_stopped, test_tasker,
  probe_tasker, nag_tasker_unproven,
}
use stayturgid.FleetMonitor.Tasker.Unanswered.{Unanswered, tells-Unanswered}
use stayturgid.FleetMonitor.Fallback.Limits.{Reach}
use stayturgid.FleetMonitor.Devlog.{Epoch}
use stayturgid.FleetMonitor.Check.{Found}
use stayturgid.FleetMonitor.Check.Balance.{alerts, recoveries}
use stayturgid.FleetMonitor.Check.Alarm.{Input, passes, alarms_balance}

abbrev fresh : Device
fresh = record {
  fails = 0;
  watchdog_epoch = 0;
  agent_epoch = 0;
  hints = [];
  cf_heal = none;
  firerpa_heal = none;
  agent_heal = none;
  repair_heal = none;
  sshd_heal = none;
  divergence = none;
  debugging_dialog = none;
  app_compat_dialog = none;
  tasker_probe = none;
  tasker_nag = none;
  result_nag = none;
  monitor_nag = none;
}

abbrev on : Switches
on = record { skip_health = false; skip_watchdog_heal = false }

abbrev agent_input : AgentInput
agent_input = (on, codes "agent_stale" ∷ [], 2, true, true)

abbrev repair_input : RepairInput
repair_input = (on, codes "repair_stale" ∷ [], 2, ssh, true)

abbrev outage : Report
outage = (codes "sshd", codes "down") ∷ []

abbrev sshd_input : SshdInput
sshd_input = (on, adb (codes "s1"), outage, none, false)

abbrev unproven : Report
unproven = (codes "tasker_recover_age", codes "missing") ∷ []

-- A self-test was sent an hour before.
abbrev tested : Device
tested = record fresh { tasker_probe = some 1000 }

tells-Unanswered_example :
    (tasker_recover_stale unproven ≡ true)
    × Unanswered tested 4600
    × (cooldown_ok tested.tasker_nag 4600 86400 ≡ true)
    × ((maybe_nag_tasker_recover on unproven none false 4600 tested).0.tasker_nag ≡ some 4600)
unfolding maybe_nag_tasker_recover nag_tasker_advisory nag_tasker_failed nag_tasker_stopped
    test_tasker probe_tasker nag_tasker_unproven tasker_recover_stale tasker_recover_failed
    tasker_monitor_stopped cooldown_ok get
tells-Unanswered_example = tells-Unanswered on unproven none false 4600 tested refl

abbrev at_seven : Epoch
at_seven line = some 7

abbrev entries : List Entry
entries = (agent_log, codes "FAILED") ∷ []

abbrev found_ill : Found
found_ill = record {
  maintenance = false;
  target = none;
  debugging_dialog = false;
  app_compat_dialog = false;
  scrape = some (record { path = ssh; report = outage; devlog = entries; missing = 0 });
  script = true;
  sshd_ran = true;
  probe_ran = true;
  repair_ran = true;
  agent_ran = true;
  known = true;
  cf_open = false;
  firerpa_open = false;
  cf_config = false;
}

abbrev two_passes : List Input
two_passes = (on, found_ill, 1000) ∷ (on, found_ill, 1300) ∷ []

alarms_balance_example :
    alerts (passes at_seven two_passes fresh).1 + (if leb 2 fresh.fails then 1 else 0)
    ≡ recoveries (passes at_seven two_passes fresh).1
      + (if leb 2 (passes at_seven two_passes fresh).0.fails then 1 else 0)
alarms_balance_example = alarms_balance at_seven two_passes fresh (refl, (refl, tt))

abbrev reaches : List (Reach × ℕ)
reaches = ((true, true, true), 1000) ∷ ((true, true, true), 2800) ∷ []
