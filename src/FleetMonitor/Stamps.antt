-- ===== src/FleetMonitor/Stamps.antt =====
-- What the monitor remembers of one phone, and its cooldowns: control/bin/fleet_health_monitor.py.
-- Times are whole seconds. A pass reads the clock once.
use stayturgid.Base.{ℕ, ◌+◌, Bool, true, Option, none, some, List, Text, leb}
use stayturgid.FleetHealth.Report.{Source}

-- When a stamp file was last written; `none` is no file.
abbrev pub Stamp : Type 0
Stamp = Option ℕ

-- The files of the state directories that bear the phone's name.
pub record Device : Type 0 where
  -- the consecutive failures
  pub fails : ℕ
  -- the last epochs reported of watchdog.log and agent.log
  pub watchdog_epoch : ℕ
  pub agent_epoch : ℕ
  -- the hinted issues that were there at the last pass
  pub hints : List Text
  pub cf_heal : Stamp
  pub firerpa_heal : Stamp
  pub agent_heal : Stamp
  pub repair_heal : Stamp
  pub sshd_heal : Stamp
  pub divergence : Stamp
  pub debugging_dialog : Stamp
  pub app_compat_dialog : Stamp
  pub tasker_probe : Stamp
  pub tasker_nag : Stamp
  pub result_nag : Stamp
  pub monitor_nag : Stamp

-- STAYTURGID_SKIP_HEALTH and STAYTURGID_SKIP_WATCHDOG_HEAL
pub record Switches : Type 0 where
  pub skip_health : Bool
  pub skip_watchdog_heal : Bool

pub data Heal : Type 0 where
  agent_heal repair_heal sshd_heal : Heal

-- What the monitor does, beyond its log, in order.
pub data Action : Type 0 where
  -- what is run or sent on the phone
  restart_agent unstop_termux_boot restart_bootloop sshd_broadcast probe_broadcast : Action
  dismiss_app_compat run_cf_agent run_firerpa_heal : Action
  -- the log lines that come once
  hint_logged hint_cleared : Text → Action
  -- the notices to the operator
  agent_restarted repair_restarted : Action
  debugging_dialog_notice app_compat_notice divergence_alert : Action
  nag_unproven nag_failed nag_stopped : Action
  health_alert : List Text → Action
  health_recovered : Action
  -- the statistics
  heal_triggered : Heal → Action
  path_event : Action
  issue_event : Text → Action
  log_failure : Source → Text → Action

-- `_heal_cooldown_ok_dir`
unfoldable pub cooldown_ok : Stamp → ℕ → ℕ → Bool
cooldown_ok none now cooldown = true
cooldown_ok (some at) now cooldown = leb (at + cooldown) now

abbrev pub Result : Type 0
Result = Device × List Action
