-- ===== src/BatteryAlarm/Pass/Notices.antt =====
-- What one pass notifies of.
use stayturgid.Base.{
  ℕ, ◌≤◌, ◌≡◌, refl, ap, ◌∙◌, Bool, true, false, ◌||◌, ◌&&◌, not, Option, none, some, List, [],
  ◌++◌, arith, leb, ◌==◌, if◌then◌else◌, Bool-cases, inl, inr, le→ltb,
}
use stayturgid.BatteryAlarm.Clock.{quiet_hours}
use stayturgid.BatteryAlarm.Battery.{Reading, Drain, on_power}
use stayturgid.BatteryAlarm.Sound.{State, Phone, battery, Effect, Result, quiet_until}
use stayturgid.BatteryAlarm.Sound.Counts.{alerts, alerts-append, Unalerting, Unalerting-start_sound}
use stayturgid.BatteryAlarm.Evening.{number_member, evening_check}
use stayturgid.BatteryAlarm.Evening.Slots.{evening_check-Unalerting}
use stayturgid.BatteryAlarm.Pass.{
  tiers, top_tier, applicable, lowest, tier_start, tier_sound, tier_effects, fire_tier_alert,
  tiers_of, alerted_tiers, continuous, alert_tier, alert_stage, report_battery, power_stage,
  pass_reading, pass,
}
use stayturgid.BatteryAlarm.Pass.Tiers.{member-mark_alerted, member-applicable, lowest-applicable}

module _ (now : ℕ) (phone : Phone) where
  tier_start-Unalerting :
      (t : ℕ) (secs : Option ℕ) (pct : ℕ) (s : State)
      → Unalerting t s (tier_start secs pct now phone s)
  tier_start-Unalerting t none pct s = (refl, refl, refl)
  tier_start-Unalerting t (some secs) pct s = elim (Bool-cases (quiet_hours now)) [
    | inl night ↦ rw (night, tier_start) (refl, refl, refl)
    | inr day ↦ rw (day, tier_start) (Unalerting-start_sound t secs (battery pct) 0 now phone s)
  ]

  alerts-tier_effects :
      (t tier pct : ℕ) (quiet : Bool)
      → alerts t (tier_effects tier pct quiet) ≡ (if tier == t then 1 else 0)
  unfolding tier_effects
  alerts-tier_effects t tier pct quiet = ground arith

  fire_tier_alert_counts :
      (t tier pct : ℕ) (quiet : Bool) (s : State)
      → ((fire_tier_alert tier pct quiet now phone s).0.alerted ≡ s.alerted)
        × (alerts t (fire_tier_alert tier pct quiet now phone s).1 ≡ (if tier == t then 1 else 0))
  unfolding fire_tier_alert
  fire_tier_alert_counts t tier pct quiet s =
      let h = tier_start-Unalerting t (tier_sound tier) pct s in
      let es = (tier_start (tier_sound tier) pct now phone s).1 in
      (
        h.0,
        alerts-append t es (tier_effects tier pct quiet)
            ∙ (rw (h.2, alerts-tier_effects) (omega arith)),
      )

  continuous-Unalerting : (t pct : ℕ) (s : State) → Unalerting t s (continuous pct now phone s)
  unfolding continuous
  continuous-Unalerting t pct s =
      ground (arith, Unalerting-start_sound t 0 (battery pct) 0 now phone s)

  -- The stage notifies of the lowest applicable tier, if it was not notified, and marks them all.
  alert_tier_counts :
      (t u pct : ℕ) (s : State)
      → lowest (applicable pct tiers) ≡ some u
      → let (s', effects) = alert_tier (some u) pct now phone s in
        (alerts t effects ≡ (if u == t && not (number_member u (alerted_tiers s)) then 1 else 0))
        × (number_member t (alerted_tiers s') ≡ (
            number_member t (alerted_tiers s)
            || not (number_member u (alerted_tiers s)) && number_member t (applicable pct tiers)))
  unfolding alert_tier
  alert_tier_counts t u pct s low =
      let quiet = quiet_until s now || phone.dnd_quiet in
      let (same, count) = fire_tier_alert_counts t u pct quiet s in
      let marked = alerted_tiers (fire_tier_alert u pct quiet now phone s).0 in
      elim (Bool-cases (number_member u (alerted_tiers s))) [
        | inl old ↦ rw (old, alert_tier) (ground arith, ground arith)
        | inr new ↦
            rw (new, alert_tier)
              (
                count ∙ ground arith,
                member-mark_alerted t (applicable pct tiers) marked
                    ∙ ground (arith, ap (λ o. number_member t (tiers_of o)) same),
              )
      ]

  alert_stage_counts :
      (t u pct : ℕ) (s : State)
      → lowest (applicable pct tiers) ≡ some u
      → let (s', effects) = alert_stage pct now phone s in
        (alerts t effects ≡ (if u == t && not (number_member u (alerted_tiers s)) then 1 else 0))
        × (number_member t (alerted_tiers s') ≡ (
            number_member t (alerted_tiers s)
            || not (number_member u (alerted_tiers s)) && number_member t (applicable pct tiers)))
  unfolding alert_stage
  alert_stage_counts t u pct s low =
      let h = alert_tier_counts t u pct s low in
      let r = alert_tier (some u) pct now phone s in
      let k = continuous-Unalerting t pct r.0 in
      rw low (
        alerts-append t r.1 (continuous pct now phone r.0).1 ∙ rw (h.0, k.2) (omega arith),
        ap (λ o. number_member t (tiers_of o)) k.0 ∙ h.1,
      )

-- A pass, by its reading, its time and what the phone answers.
abbrev pub Input : Type 0
Input = Reading × ℕ × Phone

-- A reading without power, at `pct`, in the range of the tiers.
abbrev pub Draining : Input → ℕ → Type 0
Draining (batt, now, phone) pct =
    (on_power batt ≡ false) × (batt.percentage ≡ some pct) × (pct ≤ 30)

-- What a pass at `pct` notifies, in which `u` is the lowest tier.
pub record Notifies (pct u : ℕ) (s s' : State) (effects : List Effect) : Type 0 where
  -- `u` is the least tier that is not below the charge
  pub a_tier : number_member u tiers ≡ true
  pub reached : pct ≤ u
  pub least : (v : ℕ) → number_member v tiers ≡ true → pct ≤ v → u ≤ v
  -- it is notified once, if it was not before, and no other tier is
  pub notified :
      (t : ℕ)
      → alerts t effects ≡ (if u == t && not (number_member u (alerted_tiers s)) then 1 else 0)
  -- then every tier that is not below the charge counts as notified
  pub marked :
      (t : ℕ)
      → number_member t (alerted_tiers s') ≡ (
          number_member t (alerted_tiers s)
          || not (number_member u (alerted_tiers s)) && (leb pct t && number_member t tiers))

report_battery-alerted :
    (batt : Reading) (pct now : ℕ) (s : State)
    → (report_battery batt pct now s).1.alerted ≡ s.alerted
unfolding report_battery
report_battery-alerted batt pct now s = refl

pub pass_known :
    (batt : Reading) (pct now : ℕ) (phone : Phone) (s : State)
    → batt.percentage ≡ some pct
    → pass (some batt) now phone s ≡ pass_reading batt pct now phone s
unfolding pass
pass_known batt pct now phone s is =
    ap (λ o. elim o as (λ x. Result) [ none ↦ (s, []) | some p ↦ pass_reading batt p now phone s ])
      is

-- The steps of such a pass.
module _ (batt : Reading) (pct now : ℕ) (phone : Phone) (s : State) where
  after_report : Option Drain × State
  after_report = report_battery batt pct now s

  after_evening : Result
  unfolding after_report
  after_evening = evening_check pct after_report.0 now phone after_report.1

  pass-Draining :
      Draining (batt, now, phone) pct
      → pass (some batt) now phone s ≡ (
        (alert_stage pct now phone after_evening.0).0,
        after_evening.1 ++ (alert_stage pct now phone after_evening.0).1,
      )
  unfolding pass_reading power_stage after_evening after_report
  pass-Draining (off, is, low) =
      pass_known batt pct now phone s is ∙ rw (off, le→ltb top_tier pct low)

  after_evening-Unalerting : (t : ℕ) → Unalerting t s after_evening
  unfolding after_evening
  after_evening-Unalerting t =
      let h = evening_check-Unalerting t pct after_report.0 now phone after_report.1 in
      (h.0 ∙ report_battery-alerted batt pct now s, h.1 ∙ unfold report_battery in refl, h.2)

  Draining-alerts :
      (t u : ℕ)
      → Draining (batt, now, phone) pct
      → lowest (applicable pct tiers) ≡ some u
      → alerts t (pass (some batt) now phone s).1
        ≡ (if u == t && not (number_member u (alerted_tiers s)) then 1 else 0)
  Draining-alerts t u d e =
      let h = after_evening-Unalerting t in
      let k = alert_stage_counts now phone t u pct after_evening.0 e in
      rw (pass-Draining d) (
        alerts-append t after_evening.1 (alert_stage pct now phone after_evening.0).1
        ∙ ground (arith, h.2, k.0, ap (λ o. number_member u (tiers_of o)) h.0))

  Draining-marks :
      (t u : ℕ)
      → Draining (batt, now, phone) pct
      → lowest (applicable pct tiers) ≡ some u
      → number_member t (alerted_tiers (pass (some batt) now phone s).0) ≡ (
          number_member t (alerted_tiers s)
          || not (number_member u (alerted_tiers s)) && (leb pct t && number_member t tiers))
  Draining-marks t u d e =
      let h = after_evening-Unalerting t in
      let k = alert_stage_counts now phone t u pct after_evening.0 e in
      rw (pass-Draining d) (
        ground (
          arith,
          k.1,
          member-applicable t pct tiers,
          ap (λ o. number_member u (tiers_of o)) h.0,
          ap (λ o. number_member t (tiers_of o)) h.0,
        ))

-- Without power at 30 % and below, a pass notifies of the lowest tier that the charge has reached,
-- unless that tier was notified before, and of no other; then all tiers reached count as notified.
pub pass-Notifies :
    (batt : Reading) (pct now : ℕ) (phone : Phone) (s : State)
    → Draining (batt, now, phone) pct
    → (u : ℕ) × Notifies pct u s (pass (some batt) now phone s).0 (pass (some batt) now phone s).1
pass-Notifies batt pct now phone s d =
    let (u, e, tier, le, least) = lowest-applicable pct d.2 in
    (
      u,
      record {
        a_tier = tier;
        reached = le;
        least = least;
        notified = λ t. Draining-alerts batt pct now phone s t u d e;
        marked = λ t. Draining-marks batt pct now phone s t u d e;
      },
    )
