-- ===== src/BatteryAlarm/Sound/Counts.antt =====
-- Counting what is done to the phone, and what starting a sound does to the state.
use stayturgid.Base.{ℕ, ◌+◌, ◌≡◌, ◌∙◌, true, false, List, [], ◌∷◌, ◌++◌, arith, ◌==◌, if◌then◌else◌}
use stayturgid.BatteryAlarm.Sound.{
  State, Phone, Why, Effect, spawn, loud_alert, silent_alert, Result, is_ring, quiet_until,
  start_sound,
}

-- The players that are started.
abbrev pub spawn_count : Effect → ℕ
spawn_count (spawn secs why delay) = 1
spawn_count loud = 0

abbrev pub spawns : List Effect → ℕ
spawns [] = 0
spawns (e ∷ es) = spawn_count e + spawns es

-- The notifications of the tier `t`.
abbrev pub alert_count : ℕ → Effect → ℕ
alert_count t (loud_alert pct u) = if u == t then 1 else 0
alert_count t (silent_alert pct u) = if u == t then 1 else 0
alert_count t other = 0

abbrev pub alerts : ℕ → List Effect → ℕ
alerts t [] = 0
alerts t (e ∷ es) = alert_count t e + alerts t es

pub spawns-append : (es fs : List Effect) → spawns (es ++ fs) ≡ spawns es + spawns fs
spawns-append [] fs = omega arith
spawns-append (e ∷ es) fs = omega (arith, spawns-append es fs)

pub alerts-append : (t : ℕ) (es fs : List Effect) → alerts t (es ++ fs) ≡ alerts t es + alerts t fs
alerts-append t [] fs = omega arith
alerts-append t (e ∷ es) fs = omega (arith, alerts-append t es fs)

module _ (secs : ℕ) (why : Why) (delay now : ℕ) (phone : Phone) (s : State) where
  -- In quiet mode only an explicit ring starts a sound.
  pub spawns-start_sound_quiet :
      is_ring why ≡ false
      → quiet_until s now ≡ true
      → spawns (start_sound secs why delay now phone s).1 ≡ 0
  unfolding start_sound
  spawns-start_sound_quiet h q = ground arith

-- What leaves the marks of the tiers and the quiet mode alone, and notifies of no tier.
abbrev pub Unalerting : ℕ → State → Result → Type 0
Unalerting t s r =
    (r.0.alerted ≡ s.alerted) × (r.0.quiet_deadline ≡ s.quiet_deadline) × (alerts t r.1 ≡ 0)

pub Unalerting-start_sound :
    (t secs : ℕ) (why : Why) (delay now : ℕ) (phone : Phone) (s : State)
    → Unalerting t s (start_sound secs why delay now phone s)
unfolding start_sound
Unalerting-start_sound t secs why delay now phone s = ground arith

-- One step after another.
pub Unalerting-then :
    (t : ℕ) (s s' s'' : State) (es fs : List Effect)
    → Unalerting t s (s', es)
    → Unalerting t s' (s'', fs)
    → Unalerting t s (s'', es ++ fs)
Unalerting-then t s s' s'' es fs h k =
    (k.0 ∙ h.0, k.1 ∙ h.1, rw (alerts-append t es fs) (omega arith))
