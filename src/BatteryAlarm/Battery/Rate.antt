-- ===== src/BatteryAlarm/Battery/Rate.antt =====
-- What a measured drain is worth.
use stayturgid.Base.{ℕ, ◌≤◌, ◌≡◌, refl, false, some, List, [], ◌∷◌, ◌++◌, arith}
use stayturgid.BatteryAlarm.Battery.{LogLine, Sample, Drain, samples_of, drain_of, drain_per_hour}

-- A measured drain is at least one percent over at least half an hour.
pub drain_bounds :
    (now : ℕ) (lines : List LogLine) {d : Drain}
    → drain_per_hour now lines ≡ some d
    → (1 ≤ d.drop) × (1800 ≤ d.sec)
unfolding drain_per_hour
drain_bounds now lines h = go (samples_of now lines []) h
  where
    go : (xs : List Sample) {e : Drain} → drain_of xs ≡ some e → (1 ≤ e.drop) × (1800 ≤ e.sec)
    go [] r = cc
    go (x ∷ []) r = cc
    go (x ∷ y ∷ ys) r = ground arith

samples_of-append :
    (now : ℕ) (before : List LogLine) (lines : List LogLine) (acc : List Sample)
    → samples_of now (before ++ lines) acc ≡ samples_of now lines (samples_of now before acc)
unfolding samples_of
samples_of-append now [] lines acc = refl
samples_of-append now (l ∷ before) lines acc = samples_of-append now before lines _

-- What stands before the last line that is not a discharge does not count.
pub drain_of_current :
    (now : ℕ) (before lines : List LogLine) (charge : LogLine)
    → charge.discharging ≡ false
    → drain_per_hour now (before ++ charge ∷ lines) ≡ drain_per_hour now lines
unfolding drain_per_hour
drain_of_current now before lines charge h =
    rw (samples_of-append now before (charge ∷ lines) []) (unfold samples_of in rw h)
