-- ===== src/BatteryAlarm/Pass/Silence.antt =====
-- The passes in the quiet hours and in quiet mode.
use stayturgid.Base.{
  ℕ, ◌≡◌, refl, ap, ◌∙◌, Bool, true, false, ◌||◌, Option, none, some, List, [], ◌∷◌, arith, ltb,
  Bool-cases, Option-cases, inl, inr, All,
}
use stayturgid.BatteryAlarm.Clock.{quiet_hours}
use stayturgid.BatteryAlarm.Battery.{Reading, Drain, on_power}
use stayturgid.BatteryAlarm.Sound.{State, Phone, battery, quiet_until, stop_sound}
use stayturgid.BatteryAlarm.Sound.Counts.{
  spawns, spawns-append, spawns-start_sound_quiet, Unalerting-start_sound,
}
use stayturgid.BatteryAlarm.Evening.{
  Slot, evening_slots, in_window, done_today, check_slots, evening_check,
}
use stayturgid.BatteryAlarm.Pass.{
  tiers, top_tier, applicable, lowest, tier_start, tier_sound, tier_effects, fire_tier_alert,
  clear_alert_state, continuous, alert_tier, alert_stage, report_battery, power_stage, pass_reading,
  pass,
}
use stayturgid.BatteryAlarm.Pass.Notices.{pass_known}

-- No slot's window reaches into the quiet hours.
evening_windows :
    (now : ℕ)
    → quiet_hours now ≡ true
    → All (λ (slot : Slot). in_window slot now ≡ false) evening_slots
unfolding quiet_hours
evening_windows now q = ground arith

check_slots_idle :
    (slots : List Slot) (keys : List ℕ) (pct : ℕ) (rate : Option Drain) (now : ℕ) (phone : Phone)
    (s : State)
    → All (λ (slot : Slot). in_window slot now ≡ false) slots
    → check_slots slots keys pct rate now phone s ≡ (s, [])
unfolding check_slots
check_slots_idle [] keys pct rate now phone s h = refl
check_slots_idle (slot ∷ slots) keys pct rate now phone s h =
    let ih = check_slots_idle slots keys pct rate now phone s h.1 in ground (arith, h.0, ih)

-- In the quiet hours, or with quiet mode on at `now`.
abbrev pub IsSilent : ℕ → State → Type 0
IsSilent now s = (quiet_hours now || quiet_until s now) ≡ true

module _ (now : ℕ) (phone : Phone) where
  spawns-evening_check :
      (pct : ℕ) (rate : Option Drain) (s : State)
      → IsSilent now s
      → evening_check pct rate now phone s ≡ (s, [])
  unfolding evening_check
  spawns-evening_check pct rate s h = elim (Bool-cases (quiet_until s now)) [
    | inl on ↦ rw (on, evening_check)
    | inr off ↦
        rw (off, evening_check)
          (check_slots_idle evening_slots (done_today s.evening_done now) pct rate now phone s
            (evening_windows now (ground (arith, h, off))))
  ]

  spawns-tier_start :
      (secs : Option ℕ) (pct : ℕ) (s : State)
      → IsSilent now s
      → spawns (tier_start secs pct now phone s).1 ≡ 0
  spawns-tier_start none pct s h = refl
  spawns-tier_start (some secs) pct s h =
      ground (arith, h, spawns-start_sound_quiet secs (battery pct) 0 now phone s)

  spawns-tier_effects : (tier pct : ℕ) (quiet : Bool) → spawns (tier_effects tier pct quiet) ≡ 0
  unfolding tier_effects
  spawns-tier_effects tier pct quiet = ground arith

  tier_start-quiet_deadline :
      (secs : Option ℕ) (pct : ℕ) (s : State)
      → (tier_start secs pct now phone s).0.quiet_deadline ≡ s.quiet_deadline
  tier_start-quiet_deadline none pct s = refl
  tier_start-quiet_deadline (some secs) pct s =
      ground (arith, Unalerting-start_sound 0 secs (battery pct) 0 now phone s)

  fire_tier_alert_silent :
      (tier pct : ℕ) (quiet : Bool) (s : State)
      → IsSilent now s
      → (spawns (fire_tier_alert tier pct quiet now phone s).1 ≡ 0)
        × ((fire_tier_alert tier pct quiet now phone s).0.quiet_deadline ≡ s.quiet_deadline)
  unfolding fire_tier_alert
  fire_tier_alert_silent tier pct quiet s h =
      let es = (tier_start (tier_sound tier) pct now phone s).1 in
      (
        spawns-append es (tier_effects tier pct quiet)
            ∙ rw (spawns-tier_start (tier_sound tier) pct s h, spawns-tier_effects tier pct quiet)
                (omega arith),
        tier_start-quiet_deadline (tier_sound tier) pct s,
      )

  alert_tier_silent :
      (u : Option ℕ) (pct : ℕ) (s : State)
      → IsSilent now s
      → (spawns (alert_tier u pct now phone s).1 ≡ 0)
        × ((alert_tier u pct now phone s).0.quiet_deadline ≡ s.quiet_deadline)
  unfolding alert_tier
  alert_tier_silent none pct s h = (refl, refl)
  alert_tier_silent (some u) pct s h =
      ground (arith, fire_tier_alert_silent u pct (quiet_until s now || phone.dnd_quiet) s h)

  spawns-continuous :
      (pct : ℕ) (s : State) → IsSilent now s → spawns (continuous pct now phone s).1 ≡ 0
  unfolding continuous
  spawns-continuous pct s h =
      ground (arith, h, spawns-start_sound_quiet 0 (battery pct) 0 now phone s)

  IsSilent-same :
      (s s' : State) → s'.quiet_deadline ≡ s.quiet_deadline → IsSilent now s → IsSilent now s'
  unfolding quiet_until
  IsSilent-same s s' e h =
      ap
        (λ o.
          quiet_hours now || (elim o as (λ x. Bool) [ none ↦ false | some until ↦ ltb now until ]))
        e
      ∙ h

  spawns-alert_stage :
      (pct : ℕ) (s : State) → IsSilent now s → spawns (alert_stage pct now phone s).1 ≡ 0
  unfolding alert_stage
  spawns-alert_stage pct s h =
      let u = lowest (applicable pct tiers) in
      let r = alert_tier u pct now phone s in
      let k = alert_tier_silent u pct s h in
      spawns-append r.1 (continuous pct now phone r.0).1
      ∙ rw (k.0, spawns-continuous pct r.0 (IsSilent-same s r.0 k.1 h)) (omega arith)

  spawns-power_stage :
      (powered : Bool) (pct : ℕ) (rate : Option Drain) (s : State)
      → IsSilent now s
      → (spawns (power_stage powered pct rate now phone s).1 ≡ 0)
        × ((power_stage powered pct rate now phone s).0.quiet_deadline ≡ s.quiet_deadline)
  unfolding power_stage stop_sound
  spawns-power_stage true pct rate s h = ground arith
  spawns-power_stage false pct rate s h = rw (spawns-evening_check pct rate s h) (refl, refl)

  spawns-clear_alert_state : (s : State) → spawns (clear_alert_state s).1 ≡ 0
  unfolding clear_alert_state
  spawns-clear_alert_state s = ground arith

  spawns-pass_reading :
      (batt : Reading) (pct : ℕ) (s : State)
      → IsSilent now s
      → spawns (pass_reading batt pct now phone s).1 ≡ 0
  unfolding pass_reading
  spawns-pass_reading batt pct s h =
      let (rate, s1) = report_battery batt pct now s in
      let silent1 : IsSilent now s1 = IsSilent-same s s1 (unfold report_battery in refl) h in
      let r = power_stage (on_power batt) pct rate now phone s1 in
      let k = spawns-power_stage (on_power batt) pct rate s1 silent1 in
      let silent2 : IsSilent now r.0 = IsSilent-same s1 r.0 k.1 silent1 in
      elim (Bool-cases (on_power batt || ltb top_tier pct)) [
        | inl clear ↦
            rw (clear, pass_reading)
              (spawns-append r.1 (clear_alert_state r.0).1
                ∙ rw (k.0, spawns-clear_alert_state) (omega arith))
        | inr alert ↦
            rw (alert, pass_reading)
              (spawns-append r.1 (alert_stage pct now phone r.0).1
                ∙ rw (k.0, spawns-alert_stage pct r.0 silent2) (omega arith))
      ]

-- A pass in the quiet hours, or while quiet mode lasts, starts no player, whatever the battery says.
pub pass_silent :
    (batt : Option Reading) (now : ℕ) (phone : Phone) (s : State)
    → IsSilent now s
    → spawns (pass batt now phone s).1 ≡ 0
unfolding pass
pass_silent none now phone s h = refl
pass_silent (some batt) now phone s h = elim (Option-cases batt.percentage) [
  | inl unread ↦ rw (unread, pass)
  | inr (pct, is) ↦
      rw (pass_known batt pct now phone s is) (spawns-pass_reading now phone batt pct s h)
]
