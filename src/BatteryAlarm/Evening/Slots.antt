-- ===== src/BatteryAlarm/Evening/Slots.antt =====
-- What the evening warnings leave alone.
use stayturgid.Base.{
  ℕ, ◌-◌, refl, ◌||◌, not, Option, some, List, [], ◌∷◌, ◌++◌, leb, Bool-cases, inl, inr,
}
use stayturgid.BatteryAlarm.Clock.{date}
use stayturgid.BatteryAlarm.Battery.{Drain}
use stayturgid.BatteryAlarm.Sound.{State, Phone, evening, night_notice, quiet_until, start_sound}
use stayturgid.BatteryAlarm.Sound.Counts.{Unalerting, Unalerting-start_sound, Unalerting-then}
use stayturgid.BatteryAlarm.Evening.{
  Slot, evening_slots, number_member, dead_at, deadline, key, slot_time, in_window, done_today,
  warn, check_slots, evening_check,
}

module _ (t pct : ℕ) (rate : Option Drain) (now : ℕ) (phone : Phone) where
  warn-Unalerting : (slot : Slot) (s : State) → Unalerting t s (warn slot pct rate now phone s)
  unfolding warn
  warn-Unalerting slot s = elim (Bool-cases (leb (deadline now) (dead_at pct rate now))) [
    | inl lasts ↦ rw (lasts, warn) (refl, refl, refl)
    | inr dies ↦
        let r = start_sound slot.secs (evening (key slot)) (slot_time slot now - now) now phone s in
        rw (dies, warn)
          (Unalerting-then t s r.0 r.0 r.1 (night_notice pct (dead_at pct rate now) ∷ [])
            (Unalerting-start_sound t slot.secs (evening (key slot)) (slot_time slot now - now) now
              phone s)
            (refl, refl, refl))
  ]

  check_slots-Unalerting :
      (slots : List Slot) (keys : List ℕ) (s : State)
      → Unalerting t s (check_slots slots keys pct rate now phone s)
  unfolding check_slots
  check_slots-Unalerting [] keys s = (refl, refl, refl)
  check_slots-Unalerting (slot ∷ slots) keys s =
      elim (Bool-cases (number_member (key slot) keys || not (in_window slot now))) [
        | inl skip ↦ rw (skip, check_slots) (check_slots-Unalerting slots keys s)
        | inr due ↦
            let keys' = keys ++ key slot ∷ [] in
            let s' : State = record s { evening_done = some (date now, keys') } in
            let r = warn slot pct rate now phone s' in
            let r' = check_slots slots keys' pct rate now phone r.0 in
            let h = warn-Unalerting slot s' in
            rw (due, check_slots)
              (Unalerting-then t s r.0 r'.0 r.1 r'.1 h (check_slots-Unalerting slots keys' r.0))
      ]

  -- The evening warnings have nothing to do with the tiers.
  pub evening_check-Unalerting : (s : State) → Unalerting t s (evening_check pct rate now phone s)
  unfolding evening_check
  evening_check-Unalerting s = elim (Bool-cases (quiet_until s now)) [
    | inl quiet ↦ rw (quiet, evening_check) (refl, refl, refl)
    | inr loud ↦
        rw (loud, evening_check)
          (check_slots-Unalerting evening_slots (done_today s.evening_done now) s)
  ]
