-- ===== src/FleetMonitor/Heal.antt =====
-- `maybe_heal_agent`, `maybe_heal_repair_stale` and `maybe_heal_sshd_via_tasker` of
-- control/bin/fleet_health_monitor.py.
pub mod Limits
use stayturgid.Base.{
  ℕ, ◌*◌, Bool, true, false, ◌||◌, ◌&&◌, not, Option, none, some, List, [], ◌∷◌, Text, codes,
  text_eq, is_empty, member, ltb, if◌then◌else◌, get,
}
use stayturgid.FleetHealth.Report.{Report}
use stayturgid.FleetHealth.Evaluate.{has}
use stayturgid.FleetMonitor.Stamps.{
  Device, Switches, Heal, agent_heal, repair_heal, sshd_heal, Action, restart_agent,
  unstop_termux_boot, restart_bootloop, sshd_broadcast, agent_restarted, repair_restarted,
  heal_triggered, cooldown_ok, Result,
}

abbrev pub agent_heal_after : ℕ
agent_heal_after = 2

abbrev pub repair_heal_after : ℕ
repair_heal_after = 2

abbrev pub heal_cooldown_sec : ℕ
heal_cooldown_sec = 30 * 60

abbrev pub sshd_recover_cooldown_sec : ℕ
sshd_recover_cooldown_sec = 10 * 60

-- How the path to the phone was found: `adb:` with a serial, or `ssh:`.
pub data Route : Type 0 where
  adb : Text → Route
  ssh : Route

-- `start_agent.py` is there; `ran` is `r.returncode == 0`, and false too if it cannot be run.
unfoldable pub maybe_heal_agent : Switches → List Text → ℕ → Bool → Bool → ℕ → Device → Result
maybe_heal_agent w issues fails script ran now s =
    if w.skip_watchdog_heal || w.skip_health
    then (s, [])
    else if ltb fails agent_heal_after
    then (s, [])
    else if not (member (codes "agent_stale") issues)
    then (s, [])
    else if not (cooldown_ok s.agent_heal now heal_cooldown_sec)
    then (s, [])
    else if not script
    then (s, [])
    else if ran
    then (
      record s { agent_heal = some now },
      restart_agent ∷ agent_restarted ∷ heal_triggered agent_heal ∷ [],
    )
    else (s, restart_agent ∷ [])

-- `ran` is a return code of 0 with the marker `boot-scripts-started` in the output.
unfoldable pub maybe_heal_repair_stale :
    Switches → List Text → ℕ → Route → Bool → ℕ → Device → Result
maybe_heal_repair_stale w issues fails path ran now s =
    let rest =
      restart_bootloop ∷ (if ran then repair_restarted ∷ heal_triggered repair_heal ∷ [] else []) in
    if w.skip_watchdog_heal || w.skip_health
    then (s, [])
    else if ltb fails repair_heal_after
    then (s, [])
    else if not (member (codes "repair_stale") issues)
        && not (member (codes "repair_missing") issues)
    then (s, [])
    else if not (cooldown_ok s.repair_heal now heal_cooldown_sec)
    then (s, [])
    else (
      if ran then record s { repair_heal = some now } else s,
      elim path [
        | adb serial ↦ if is_empty serial then rest else unstop_termux_boot ∷ rest
        | ssh ↦ rest
      ],
    )

abbrev pub is_adb : Route → Bool
is_adb (adb serial) = true
is_adb ssh = false

abbrev text_or_empty : Option Text → Text
text_or_empty none = []
text_or_empty (some t) = t

abbrev pub serial_of : Route → Option Text → Text
serial_of (adb serial) target = serial
serial_of ssh target = text_or_empty target

-- The stamp comes before the broadcast, whether it then succeeds or not.
unfoldable pub maybe_heal_sshd_via_tasker :
    Switches → Route → Report → Option Text → Bool → ℕ → Device → Result
maybe_heal_sshd_via_tasker w path r target ran now s =
    if w.skip_watchdog_heal || w.skip_health
    then (s, [])
    else if not (is_adb path && has r (codes "ssh_echo") (codes "skip"))
        && not (has r (codes "sshd") (codes "down"))
    then (s, [])
    else if is_empty (serial_of path target)
    then (s, [])
    else if not (cooldown_ok s.sshd_heal now sshd_recover_cooldown_sec)
    then (s, [])
    else (
      record s { sshd_heal = some now },
      sshd_broadcast ∷ (if ran then heal_triggered sshd_heal ∷ [] else []),
    )
