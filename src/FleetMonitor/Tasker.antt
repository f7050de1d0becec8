-- ===== src/FleetMonitor/Tasker.antt =====
-- `maybe_nag_tasker_recover` and `_maybe_nag_tasker_advisory` of control/bin/fleet_health_monitor.py.
pub mod Unanswered
use stayturgid.Base.{
  ℕ, ◌+◌, ◌*◌, Bool, true, false, ◌||◌, ◌&&◌, not, Option, none, some, List, [], ◌∷◌, ◌++◌, Text,
  is_empty, leb, if◌then◌else◌,
}
use stayturgid.FleetHealth.Report.{Report}
use stayturgid.FleetHealth.Evaluate.{
  tasker_recover_fresh_sec, tasker_recover_stale, tasker_recover_failed, tasker_monitor_stopped,
}
use stayturgid.FleetMonitor.Stamps.{
  Stamp, Device, Switches, Action, probe_broadcast, nag_unproven, nag_failed, nag_stopped,
  cooldown_ok, Result,
}

abbrev pub tasker_nag_cooldown_sec : ℕ
tasker_nag_cooldown_sec = 24 * 60 * 60

abbrev pub tasker_probe_cooldown_sec : ℕ
tasker_probe_cooldown_sec = 60 * 60

unfoldable pub nag_tasker_failed : Report → ℕ → Device → Result
nag_tasker_failed r now s =
    if tasker_recover_failed r && cooldown_ok s.result_nag now tasker_nag_cooldown_sec
    then (record s { result_nag = some now }, nag_failed ∷ [])
    else (s, [])

unfoldable pub nag_tasker_stopped : Report → ℕ → Device → Result
nag_tasker_stopped r now s =
    if tasker_monitor_stopped r && cooldown_ok s.monitor_nag now tasker_nag_cooldown_sec
    then (record s { monitor_nag = some now }, nag_stopped ∷ [])
    else (s, [])

unfoldable pub nag_tasker_advisory : Report → ℕ → Device → Result
nag_tasker_advisory r now s =
    let (s', actions) = nag_tasker_failed r now s in
    let (s'', more) = nag_tasker_stopped r now s' in (s'', actions ++ more)

abbrev pub has_target : Option Text → Bool
has_target none = false
has_target (some t) = not (is_empty t)

-- The self-test; only one that was delivered is stamped.
unfoldable pub probe_tasker : Switches → Option Text → Bool → ℕ → Device → Result
probe_tasker w target ran now s =
    if has_target target
      && (not w.skip_watchdog_heal && cooldown_ok s.tasker_probe now tasker_probe_cooldown_sec)
    then (if ran then record s { tasker_probe = some now } else s, probe_broadcast ∷ [])
    else (s, [])

-- `prior` is the stamp of the self-test before this pass.
abbrev pub is_unanswered : Stamp → ℕ → Bool
is_unanswered none now = false
is_unanswered (some at) now = not (leb (at + tasker_recover_fresh_sec) now)

unfoldable pub nag_tasker_unproven : Stamp → ℕ → Device → Result
nag_tasker_unproven prior now s =
    if not (is_unanswered prior now)
    then (s, [])
    else if not (cooldown_ok s.tasker_nag now tasker_nag_cooldown_sec)
    then (s, [])
    else (record s { tasker_nag = some now }, nag_unproven ∷ [])

unfoldable pub test_tasker : Switches → Report → Option Text → Bool → ℕ → Device → Result
test_tasker w r target ran now s =
    if not (tasker_recover_stale r)
    then (s, [])
    else (let (s', actions) = probe_tasker w target ran now s in
        let (s'', more) = nag_tasker_unproven s.tasker_probe now s' in (s'', actions ++ more))

-- `target` is where adb reaches the phone; `ran` is the self-test's return code of 0.
unfoldable pub maybe_nag_tasker_recover :
    Switches → Report → Option Text → Bool → ℕ → Device → Result
maybe_nag_tasker_recover w r target ran now s =
    let (s', actions) = nag_tasker_advisory r now s in
    let (s'', more) = test_tasker w r target ran now s' in (s'', actions ++ more)
