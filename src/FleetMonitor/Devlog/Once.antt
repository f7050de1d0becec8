-- ===== src/FleetMonitor/Devlog/Once.antt =====
-- How often a line of a device's log is reported.
use stayturgid.Base.{
  ℕ, ◌≤◌, ◌≡◌, refl, true, List, [], ◌∷◌, arith, Text, leb, leb→le, Bool-cases, Option-cases, inl,
  inr,
}
use stayturgid.FleetHealth.Report.{Source, watchdog_log, agent_log, Entry}
use stayturgid.FleetMonitor.Stamps.{Device}
use stayturgid.FleetMonitor.Devlog.{
  Epoch, is_failure, newer, report_lines, lines_of, epoch_of, with_epoch, first_source,
  other_source, report_source, report_device_log_failures,
}

le→leb : (a b : ℕ) → a ≤ b → leb a b ≡ true
le→leb a b h = ground arith

newer-le : (e newest seen : ℕ) → newer e newest ≤ seen → e ≤ seen
newer-le e newest seen h = ground arith

module _ (epoch : Epoch) (source : Source) where
  newest_grows :
      (last : ℕ) (lines : List Text) (newest : ℕ)
      → newest ≤ (report_lines epoch source last lines newest).1
  unfolding report_lines
  newest_grows last [] newest = omega arith
  newest_grows last (line ∷ lines) newest = elim (Bool-cases (is_failure source line)) [
    | inr fine ↦ rw (report_lines, fine) (newest_grows last lines newest)
    | inl fails ↦ elim (Option-cases (epoch line)) [
      | inl undated ↦ rw (report_lines, fails, undated) (newest_grows last lines newest)
      | inr (e, dated) ↦
          rw (report_lines, fails, dated)
            (ground
              (arith, newest_grows last lines newest, newest_grows last lines (newer e newest)))
    ]
  ]

  -- With all that was reported up to `seen`, nothing is left to report.
  nothing_new :
      (last seen : ℕ) (lines : List Text) (newest : ℕ)
      → (report_lines epoch source last lines newest).1 ≤ seen
      → last ≤ seen
      → report_lines epoch source seen lines seen ≡ ([], seen)
  unfolding report_lines
  nothing_new last seen [] newest h le = refl
  nothing_new last seen (line ∷ lines) newest h le = elim (Bool-cases (is_failure source line)) [
    | inr fine ↦
        rw (report_lines, fine)
          (nothing_new last seen lines newest (rw (report_lines, fine) at h) le)
    | inl fails ↦ elim (Option-cases (epoch line)) [
      | inl undated ↦
          rw (report_lines, fails, undated)
            (nothing_new last seen lines newest (rw (report_lines, fails, undated) at h) le)
      | inr (e, dated) ↦ elim (Bool-cases (leb e last)) [
        | inl old ↦
            let k =
              nothing_new last seen lines newest (rw (report_lines, fails, dated, old) at h) le in
            rw (report_lines, fails, dated, le→leb e seen (omega (arith, leb→le e last old, le))) k
        | inr new ↦
            let h' : (report_lines epoch source last lines (newer e newest)).1 ≤ seen =
              rw (report_lines, fails, dated, new) at h in
            let below : e ≤ seen =
              newer-le e newest seen
                (omega (arith, newest_grows last lines (newer e newest), h')) in
            rw (report_lines, fails, dated, le→leb e seen below)
              (nothing_new last seen lines (newer e newest) h' le)
      ]
    ]
  ]

  -- The lines of this source have all been reported.
  abbrev IsReported : List Entry → Device → Type 0
  IsReported es s =
      report_lines epoch source (epoch_of source s) (lines_of source es) (epoch_of source s)
      ≡ ([], epoch_of source s)

  report_source_reported :
      (es : List Entry) (s : Device) → IsReported es s → report_source epoch source es s ≡ (s, [])
  unfolding report_source
  report_source_reported es s h = rw (report_source, h) (ground arith)

  epoch_of-with_epoch : (e : ℕ) (s : Device) → epoch_of source (with_epoch source e s) ≡ e
  epoch_of-with_epoch e s = elim source as (λ x. epoch_of x (with_epoch x e s) ≡ e) [
    | watchdog_log ↦ refl
    | agent_log ↦ refl
  ]

  epoch_of-report_source :
      (es : List Entry) (s : Device)
      → epoch_of source (report_source epoch source es s).0
        ≡ (report_lines epoch source (epoch_of source s) (lines_of source es) (epoch_of source s)).1
  unfolding report_source
  epoch_of-report_source es s =
      let last = epoch_of source s in
      let newest = (report_lines epoch source last (lines_of source es) last).1 in
      ground (arith, newest_grows last (lines_of source es) last, epoch_of-with_epoch newest s)

  report_source-IsReported :
      (es : List Entry) (s : Device) → IsReported es (report_source epoch source es s).0
  report_source-IsReported es s =
      let last = epoch_of source s in
      rw (epoch_of-report_source es s) (
        nothing_new last (report_lines epoch source last (lines_of source es) last).1
          (lines_of source es) last (omega arith) (newest_grows last (lines_of source es) last))

epoch_of_other :
    (epoch : Epoch) (source : Source) (es : List Entry) (s : Device)
    → epoch_of source (report_source epoch (other_source source) es s).0 ≡ epoch_of source s
unfolding report_source
epoch_of_other epoch watchdog_log es s = ground arith
epoch_of_other epoch agent_log es s = ground arith

all_reported :
    (epoch : Epoch) (es : List Entry) (s : Device)
    → IsReported epoch (first_source es) es s
    → IsReported epoch (other_source (first_source es)) es s
    → report_device_log_failures epoch es s ≡ (s, [])
unfolding report_device_log_failures
all_reported epoch es s h k = rw (
  report_device_log_failures,
  report_source_reported epoch (first_source es) es s h,
  report_source_reported epoch (other_source (first_source es)) es s k,
)

-- A second report of the same lines reports nothing, and leaves the state as it is.
pub devlog_once :
    (epoch : Epoch) (es : List Entry) (s : Device)
    → let s' = (report_device_log_failures epoch es s).0 in
      report_device_log_failures epoch es s' ≡ (s', [])
unfolding report_device_log_failures
devlog_once epoch es s =
    let first = first_source es in
    let s1 = (report_source epoch first es s).0 in
    let s2 = (report_source epoch (other_source first) es s1).0 in
    let own : IsReported epoch first es s2 =
      rw (epoch_of_other epoch first es s1) (report_source-IsReported epoch first es s) in
    all_reported epoch es s2 own (report_source-IsReported epoch (other_source first) es s1)
