-- ===== src/FleetHealth/Evaluate.antt =====
-- `evaluate_health` and the advisory tests of control/lib/fleet_health.py.
pub mod Issues
use stayturgid.Base.{
  sorted_set, ℕ, ◌+◌, Bool, true, false, ◌||◌, ◌&&◌, not, Option, none, some, List, [], ◌∷◌, Text,
  codes, text_eq, text_lt, or_else, member, lower, ltb, leb, if◌then◌else◌, get,
}
use stayturgid.FleetHealth.Report.{Report, int_age}

abbrev pub agent_heartbeat_fresh_sec : ℕ
agent_heartbeat_fresh_sec = 420

abbrev pub repair_fresh_sec : ℕ
repair_fresh_sec = 2700

abbrev pub tasker_recover_fresh_sec : ℕ
tasker_recover_fresh_sec = 604800

-- `report.get(field) == value`
abbrev pub has : Report → Text → Text → Bool
has r field value = elim (get field r) [ none ↦ false | some v ↦ text_eq v value ]

-- `report.get(field) or ""`
abbrev field_or_empty : Report → Text → Text
field_or_empty r field = elim (get field r) [ none ↦ [] | some v ↦ v ]

abbrev pub starts_with : Text → Text → Bool
starts_with [] s = true
starts_with (c ∷ p) [] = false
starts_with (c ∷ p) (d ∷ s) = text_eq (c ∷ []) (d ∷ []) && starts_with p s

abbrev pub is_absent : Option ℕ → Bool
is_absent none = true
is_absent (some n) = false

abbrev pub at_least : ℕ → Option ℕ → Bool
at_least limit none = false
at_least limit (some n) = leb limit n

abbrev pub heartbeat_age : Report → Option ℕ
heartbeat_age r = int_age (get (codes "agent_heartbeat_age") r)

abbrev pub repair_age : Report → Option ℕ
repair_age r = int_age (get (codes "repair_age") r)

abbrev down_or_failed : List Text
down_or_failed = codes "down" ∷ codes "failed" ∷ []

-- A test with the tag that is appended where it holds.
abbrev pub Check : Type 0
Check = Bool × Text

-- The tests in their order. `missing` is the number of services that `a11y_profile_missing` gives
-- for the alias; the profiles are read from a file.
unfoldable pub checks : ℕ → Report → List Check
checks missing r =
    (
      has r (codes "probe") (codes "adb_missing")
          || (has r (codes "probe") (codes "adb_timeout")
              || has r (codes "issues") (codes "probe_error")),
      codes "probe_error",
    )
    ∷ (has r (codes "ssh_echo") (codes "fail"), codes "ssh_echo")
    ∷ (has r (codes "sshd") (codes "down"), codes "sshd_down")
    ∷ (has r (codes "bootloop") (codes "down"), codes "bootloop_down")
    ∷ (has r (codes "shell5555") (codes "down"), codes "shell5555_down")
    ∷ (is_absent (heartbeat_age r), codes "agent_missing")
    ∷ (at_least agent_heartbeat_fresh_sec (heartbeat_age r), codes "agent_stale")
    ∷ (has r (codes "agent_reboot_candidate") (codes "yes"), codes "agent_reboot_candidate")
    ∷ (has r (codes "repair_age") (codes "missing"), codes "repair_missing")
    ∷ (
      not (has r (codes "repair_age") (codes "missing"))
          && at_least repair_fresh_sec (repair_age r),
      codes "repair_stale",
    )
    ∷ (starts_with (codes "FAILED") (field_or_empty r (codes "a11y")), codes "a11y_failed")
    ∷ (
      member (field_or_empty r (codes "port"))
          (codes "closed" ∷ codes "CLOSED" ∷ codes "CLOSED_NO_SHELL" ∷ []),
      codes "port_closed",
    )
    ∷ (
      member (lower (field_or_empty r (codes "shizuku")))
          (codes "down" ∷ codes "dead" ∷ codes "failed" ∷ codes "false" ∷ codes "0" ∷ []),
      codes "shizuku_down",
    )
    ∷ (member (lower (field_or_empty r (codes "tailscale"))) down_or_failed, codes "tailscale_down")
    ∷ (
      member (lower (field_or_empty r (codes "tailscale_policy"))) down_or_failed,
      codes "tailscale_policy_down",
    )
    ∷ (ltb 0 missing, codes "a11y_profile_drift")
    ∷ (has r (codes "fleet_profile") (codes "failed"), codes "fleet_profile_failed")
    ∷ (has r (codes "shizuku_server_stale") (codes "yes"), codes "shizuku_server_stale")
    ∷ (has r (codes "shizuku_auth") (codes "unanswered"), codes "shizuku_auth_unanswered")
    ∷ (has r (codes "cfengine") (codes "down"), codes "cfengine_down")
    ∷ []

-- The tags that are appended.
unfoldable pub failing : List Check → List Text
failing [] = []
failing ((holds, tag) ∷ cs) = let rest = failing cs in if holds then tag ∷ rest else rest

unfoldable pub evaluate_health : ℕ → Report → List Text
unfolding checks failing sorted_set
evaluate_health missing r = sorted_set (failing (checks missing r))

unfoldable pub tasker_recover_stale : Report → Bool
tasker_recover_stale r =
    has r (codes "tasker_recover_age") (codes "missing")
    || at_least (tasker_recover_fresh_sec + 1) (int_age (get (codes "tasker_recover_age") r))

unfoldable pub tasker_recover_failed : Report → Bool
tasker_recover_failed r = has r (codes "tasker_recover_result") (codes "failed")

unfoldable pub tasker_monitor_stopped : Report → Bool
tasker_monitor_stopped r = has r (codes "tasker_monitor") (codes "stopped")
