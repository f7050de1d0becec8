-- ===== src/BatteryAlarm/Battery/Agreement.antt =====
-- `on_power` on the phone and `on_charger` on the hub.
use stayturgid.Base.{
  ◌≡◌, refl, ◌||◌, not, Option, none, some, [], ◌∷◌, ℕ, Text, codes, or_else, member,
}
use stayturgid.BatteryWatch.Status.{on_charger as hub_on_charger}
use stayturgid.BatteryAlarm.Battery.{Reading, Drain, on_power, write_status, plugged_of, unplugged}

-- `on_charger` of battery_watch.py on the status that the phone writes is `on_power` of its reading.
pub on_charger-write_status :
    (batt : Reading) (pct : ℕ) (rate : Option Drain) (now : ℕ) (previous : Option ℕ)
    → hub_on_charger (write_status batt pct rate now previous) ≡ on_power batt
unfolding hub_on_charger write_status on_power
on_charger-write_status batt pct rate now previous = go batt.plugged
  where
    go :
        (p : Option Text)
        → (member batt.status (codes "CHARGING" ∷ codes "FULL" ∷ [])
            || not (member (plugged_of p) (unplugged ∷ [] ∷ [])))
          ≡ (member batt.status (codes "CHARGING" ∷ codes "FULL" ∷ [])
              || not (member (or_else (plugged_of p) unplugged) (unplugged ∷ [] ∷ [])))
    go none = refl
    go (some []) = refl
    go (some (c ∷ p)) = refl
