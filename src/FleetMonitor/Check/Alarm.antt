-- ===== src/FleetMonitor/Check/Alarm.antt =====
-- The alarm of a phone, over the passes.
use stayturgid.Base.{
  ℕ, ◌+◌, ◌≡◌, refl, false, ◌&&◌, Option, none, some, List, [], ◌∷◌, ◌++◌, arith, All, Text, leb,
  if◌then◌else◌,
}
use stayturgid.FleetHealth.Evaluate.{evaluate_health}
use stayturgid.FleetMonitor.Stamps.{Device, Switches, Result}
use stayturgid.FleetMonitor.Heal.{Route, maybe_heal_sshd_via_tasker}
use stayturgid.FleetMonitor.Fallback.{try_cf_runagent_repair, try_firerpa_heal_fallback}
use stayturgid.FleetMonitor.Tasker.{has_target, maybe_nag_tasker_recover}
use stayturgid.FleetMonitor.Devlog.{Epoch, report_device_log_failures}
use stayturgid.FleetMonitor.Check.{
  Scrape, Found, and_then, notice_debugging_dialog, notice_app_compat_dialog, alert_divergence,
  note_issues, count_success, count, check_scrape, check_found, check_device,
}
use stayturgid.FleetMonitor.Check.Balance.{
  alerts, recoveries, alerts-append, recoveries-append, Balanced, Calm, Calm-and_then,
  Balanced-and_then,
}
use stayturgid.FleetMonitor.Check.Calm.{
  heal_sshd-Calm, tasker-Calm, devlog-Calm, note_issues-Calm, divergence-Calm, dialog-Calm,
  app_compat-Calm, count_failure-Balanced, Calm-Balanced, cf_runagent-Calm, firerpa-Calm,
}

count-Balanced :
    (w : Switches) (f : Found) (path : Route) (issues : List Text) (now : ℕ) (s : Device)
    → Balanced s (count w f path issues now s)
unfolding count count_success
count-Balanced w f path [] now s = ground arith
count-Balanced w f path (i ∷ is) now s = count_failure-Balanced w f path (i ∷ is) now s

-- The steps before the count.
module _ (w : Switches) (epoch : Epoch) (f : Found) (c : Scrape) (now : ℕ) where
  before_count : Device → Result
  before_count s =
      and_then
        (and_then
          (and_then
            (and_then (alert_divergence c.path c.report now s)
              (maybe_heal_sshd_via_tasker w c.path c.report f.target f.sshd_ran now))
            (note_issues (evaluate_health c.missing c.report)))
          (report_device_log_failures epoch c.devlog))
        (maybe_nag_tasker_recover w c.report f.target f.probe_ran now)

  before_count-Calm : (s : Device) → Calm s (before_count s)
  unfolding before_count
  before_count-Calm s =
      let issues = evaluate_health c.missing c.report in
      let r1 = alert_divergence c.path c.report now s in
      let f2 = maybe_heal_sshd_via_tasker w c.path c.report f.target f.sshd_ran now in
      let r2 = and_then r1 f2 in
      let r3 = and_then r2 (note_issues issues) in
      let r4 = and_then r3 (report_device_log_failures epoch c.devlog) in
      Calm-and_then s r4 (maybe_nag_tasker_recover w c.report f.target f.probe_ran now)
        (Calm-and_then s r3 (report_device_log_failures epoch c.devlog)
          (Calm-and_then s r2 (note_issues issues)
            (Calm-and_then s r1 f2 (divergence-Calm c.path c.report now s)
              (heal_sshd-Calm w c.path c.report f.target f.sshd_ran now r1.0))
            (note_issues-Calm issues r2.0))
          (devlog-Calm epoch c.devlog r3.0))
        (tasker-Calm w c.report f.target f.probe_ran now r4.0)

  check_scrape-Balanced : (s : Device) → Balanced s (check_scrape w epoch f c now s)
  unfolding check_scrape before_count
  check_scrape-Balanced s =
      let issues = evaluate_health c.missing c.report in
      Balanced-and_then s (before_count s) (count w f c.path issues now) (before_count-Calm s)
        (count-Balanced w f c.path issues now (before_count s).0)

module _ (w : Switches) (epoch : Epoch) (f : Found) (now : ℕ) where
  check_found-Balanced :
      (scrape : Option Scrape) (s : Device) → Balanced s (check_found w epoch f scrape now s)
  unfolding check_found
  check_found-Balanced none s =
      let r = try_cf_runagent_repair f.known f.cf_open f.cf_config now s in
      Calm-Balanced s (and_then r (try_firerpa_heal_fallback f.known f.firerpa_open now)) (
        Calm-and_then s r (try_firerpa_heal_fallback f.known f.firerpa_open now)
          (cf_runagent-Calm f.known f.cf_open f.cf_config now s)
          (firerpa-Calm f.known f.firerpa_open now r.0))
  check_found-Balanced (some c) s = check_scrape-Balanced w epoch f c now s

  check_device-Balanced :
      (s : Device) → f.maintenance ≡ false → Balanced s (check_device w epoch f now s)
  unfolding check_device check_found count
  check_device-Balanced s working =
      let dialog = has_target f.target && f.debugging_dialog in
      let compat = has_target f.target && f.app_compat_dialog in
      let r = notice_debugging_dialog dialog now s in
      rw working (
        Balanced-and_then s (and_then r (notice_app_compat_dialog compat now))
          (check_found w epoch f f.scrape now)
          (Calm-and_then s r (notice_app_compat_dialog compat now) (dialog-Calm dialog now s)
            (app_compat-Calm compat now r.0))
          (check_found-Balanced f.scrape (and_then r (notice_app_compat_dialog compat now)).0))

-- A run of passes, each with what it finds and its time.
abbrev pub Input : Type 0
Input = Switches × Found × ℕ

unfoldable pub passes : Epoch → List Input → Device → Result
passes epoch [] s = (s, [])
passes epoch ((w, f, now) ∷ inputs) s =
    let (s', actions) = check_device w epoch f now s in
    let (s'', more) = passes epoch inputs s' in (s'', actions ++ more)

abbrev pub IsWorking : Input → Type 0
IsWorking (w, f, now) = f.maintenance ≡ false

-- Over any passes without maintenance, the health alerts and the alarm that stands before them are as
-- many as the recoveries and the alarm that stands after them; it stands from the second failure on.
pub alarms_balance :
    (epoch : Epoch) (inputs : List Input) (s : Device)
    → All IsWorking inputs
    → let (s', actions) = passes epoch inputs s in
      alerts actions + (if leb 2 s.fails then 1 else 0)
      ≡ recoveries actions + (if leb 2 s'.fails then 1 else 0)
unfolding passes
alarms_balance epoch [] s h = refl
alarms_balance epoch ((w, f, now) ∷ inputs) s h =
    let r = check_device w epoch f now s in
    let k = check_device-Balanced w epoch f now s h.0 in
    let ih = alarms_balance epoch inputs r.0 h.1 in
    let more = (passes epoch inputs r.0).1 in
    omega (arith, k, ih, alerts-append r.1 more, recoveries-append r.1 more)
