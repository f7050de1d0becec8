-- ===== src/BatteryWatch/Evaluate.antt =====
-- `evaluate` of control/lib/battery_watch.py: the messages due for one device.
pub mod Once
use stayturgid.Base.{
  ℕ, ◌*◌, ◌+◌, ◌-◌, ◌/◌, Bool, true, false, ◌||◌, ◌&&◌, not, Option, none, some, List, [], ◌∷◌,
  ◌++◌, Text, ltb, leb, if◌then◌else◌, Dict, get, get_or, assign, discard,
}
use stayturgid.BatteryWatch.Status.{Status, is_stale, on_charger, pct_or}

-- What a device's slot remembers: the alerts sent since it last charged.
pub record Slot : Type 0 where
  pub low : Bool
  pub nocharge : Bool

abbrev pub fresh_slot : Slot
fresh_slot = record { low = false; nocharge = false }

-- The devices' slots. The table of last known statuses that the source keeps beside them under the
-- key `_last` is a field of its own in the model's memory; no device is called so.
abbrev pub Slots : Type 0
Slots = Dict Slot

-- A message, with the values that its text shows.
pub data Message : Type 0 where
  low_battery : Text → ℕ → Option ℕ → Message
  no_charger : Text → ℕ → ℕ → Message

abbrev pub phone_eta_min : ℕ
phone_eta_min = 120

abbrev pub phone_pct : ℕ
phone_pct = 15

abbrev pub mac_eta_min : ℕ
mac_eta_min = 30

abbrev pub no_charge_h : ℕ
no_charge_h = 24

-- `eta - (now - ts) / 60 <= limit`, in seconds and without a difference.
abbrev pub eta_within : ℕ → Status → ℕ → Bool
eta_within limit st now = elim st.eta_min [
  | none ↦ false
  | some eta ↦ leb (eta * 60 + st.ts) (limit * 60 + now)
]

-- The minutes that `_hm` shows: `max(0, int(eta))`.
abbrev pub minutes_left : Status → ℕ → Option ℕ
minutes_left st now = elim st.eta_min [
  | none ↦ none
  | some eta ↦ some ((eta * 60 + st.ts - now) / 60)
]

unfoldable pub is_low : Bool → Status → ℕ → Bool
is_low computer st now =
    if computer
    then eta_within mac_eta_min st now
    else eta_within phone_eta_min st now || leb (pct_or 100 st) phone_pct

-- `last and now - last > NO_CHARGE_H * 3600`
abbrev pub long_uncharged : Option ℕ → ℕ → Bool
long_uncharged none now = false
long_uncharged (some last) now = ltb 0 last && ltb (no_charge_h * 3600) (now - last)

unfoldable pub is_overdue : Bool → Status → ℕ → Bool
is_overdue computer st now = not computer && long_uncharged st.last_charged now

abbrev pub hours_since : Option ℕ → ℕ → ℕ
hours_since none now = 0
hours_since (some last) now = (now - last) / 3600

-- Sends `msg` if it is due and the slot does not say that it was sent.
abbrev pub due : Bool → Bool → Message → List Message
due now_due seen msg = if now_due && not seen then msg ∷ [] else []

unfoldable pub evaluate : Text → Status → Slots → ℕ → Bool → List Message × Slots
evaluate name st mem now computer =
    if is_stale st now
    then ([], mem)
    else if on_charger st
    then ([], discard name mem)
    else (let seen = get_or name fresh_slot mem in
        let low = is_low computer st now in
        let overdue = is_overdue computer st now in
        (
          due low seen.low (low_battery name (pct_or 100 st) (minutes_left st now))
              ++ due overdue seen.nocharge
                  (no_charger name (hours_since st.last_charged now) (pct_or 100 st)),
          assign name (record { low = seen.low || low; nocharge = seen.nocharge || overdue }) mem,
        ))
