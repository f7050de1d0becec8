-- ===== src/BatteryWatch/Status.antt =====
-- A device's battery status as control/lib/battery_watch.py reads it. Times are whole seconds.
use stayturgid.Base.{
  ℕ, ◌*◌, ◌-◌, Bool, ◌||◌, not, Option, none, some, [], ◌∷◌, Text, codes, member, ltb,
}

-- The fields that the watch reads. `ts` is in every status: `write_status` and `parse_pmset` set it.
pub record Status : Type 0 where
  pub ts : ℕ
  pub pct : Option ℕ
  pub status : Option Text
  pub plugged : Option Text
  pub on_charger : Option Bool
  pub eta_min : Option ℕ
  pub last_charged : Option ℕ

-- What `device_status` returns: `None`, `{}`, or a status.
pub data Report : Type 0 where
  unreachable empty : Report
  known : Status → Report

abbrev pub stale_sec : ℕ
stale_sec = 45 * 60

abbrev pub is_stale : Status → ℕ → Bool
is_stale st now = ltb stale_sec (now - st.ts)

abbrev pub or_empty : Option Text → Text
or_empty none = []
or_empty (some s) = s

-- `st.get("plugged", "UNPLUGGED")`
abbrev pub plugged_of : Option Text → Text
plugged_of none = codes "UNPLUGGED"
plugged_of (some s) = s

unfoldable pub on_charger : Status → Bool
on_charger st = elim st.on_charger [
  | some b ↦ b
  | none ↦
      member (or_empty st.status) (codes "CHARGING" ∷ codes "FULL" ∷ [])
      || not (member (plugged_of st.plugged) (codes "UNPLUGGED" ∷ [] ∷ []))
]

-- `st.get("pct", default)`
abbrev pub pct_or : ℕ → Status → ℕ
pct_or default st = elim st.pct [ none ↦ default | some p ↦ p ]
