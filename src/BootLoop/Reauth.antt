-- ===== src/BootLoop/Reauth.antt =====
-- `_repair_on_reauth` and `_sleep_watching_adb_auth` of device/termux/py/start_adb.py. Times are whole
-- seconds, and one clock stands for both of the source's.
pub mod Bounded
use stayturgid.Base.{
  ℕ, zero, suc, ◌+◌, ◌-◌, Bool, true, false, not, ◌||◌, ◌&&◌, Option, none, some, List, [], ◌∷◌,
  ◌++◌, Text, text_eq, ltb, leb, ◌==◌, if◌then◌else◌,
}

abbrev pub reauth_poll_sec : ℕ
reauth_poll_sec = 10

abbrev pub reauth_idle_sec : ℕ
reauth_idle_sec = 60

abbrev pub reauth_min_gap_sec : ℕ
reauth_min_gap_sec = 60

-- The stamp file: when the last repair pass was started here, and for which marker. A missing one reads
-- as time 0 and the empty marker.
pub record Stamp : Type 0 where
  pub last : ℕ
  pub consumed : Text

-- What the check meets: whether `adb devices` and the gated connect both answer "device", and whether
-- the stamp file can be written.
pub record Adb : Type 0 where
  pub listed : Bool
  pub connected : Bool
  pub writable : Bool

-- The stamp file after the check, and whether it ran the repair pass.
unfoldable pub repair_on_reauth : Adb → Text → ℕ → Stamp → Stamp × Bool
repair_on_reauth adb marker now st =
    if text_eq marker st.consumed || leb st.last now && ltb (now - st.last) reauth_min_gap_sec
    then (st, false)
    else if not adb.listed
    then (st, false)
    else if not adb.connected
    then (st, false)
    else if not adb.writable
    then (st, false)
    else (record { last = now; consumed = marker }, true)

-- What a time of the sleep shows: the marker's text, if there is one, what the check would meet, and how
-- long it would take.
pub record Moment : Type 0 where
  pub marker : Option Text
  pub adb : Adb
  pub took : ℕ

abbrev pub min : ℕ → ℕ → ℕ
min a b = if leb a b then a else b

-- One round of the sleep: how long it lasts, the stamp file after it, and whether it ran the repair pass.
unfoldable pub round : Moment → ℕ → ℕ → Stamp → ℕ × Stamp × Bool
round m left now st = elim m.marker [
  | none ↦ (min left reauth_idle_sec, st, false)
  | some marker ↦
      let (st', ran) = repair_on_reauth m.adb marker now st in
      (m.took + min left reauth_poll_sec, st', ran)
]

abbrev pub cons_if : Bool → ℕ → List ℕ → List ℕ
cons_if true t ts = t ∷ ts
cons_if false t ts = ts

pub record Slept : Type 0 where
  pub ended : ℕ
  pub stamp : Stamp
  pub repairs : List ℕ

abbrev pub add_repair : Bool → ℕ → Option Slept → Option Slept
add_repair ran now none = none
add_repair ran now (some s) = some (record s { repairs = cons_if ran now s.repairs })

-- The sleep, which has `left` seconds to its deadline; `none` when the fuel is out.
unfoldable pub sleep_watching : ℕ → (ℕ → Moment) → ℕ → ℕ → Stamp → Option Slept
sleep_watching zero world left now st = none
sleep_watching (suc fuel) world left now st = elim (left == 0) [
  | true ↦ some (record { ended = now; stamp = st; repairs = [] })
  | false ↦
      let (lasted, st', ran) = round (world now) left now st in
      add_repair ran now (sleep_watching fuel world (left - lasted) (now + lasted) st')
]
