-- ===== src/BatteryUse/Tables.antt =====
-- The tables that `parse_checkin` of device/termux/py/stayturgid_battery_use.py fills.
use stayturgid.Base.{
  Bool, ◌≡◌, refl, Option, none, some, List, [], ◌∷◌, Text, Dict, if◌then◌else◌, arith, ℤ, eqℤ,
  eqℤ_iff,
}
use stayturgid.BatteryUse.Fields.{Wakelock, Job}

-- The language's floating-point numbers: `float(text)` with its ValueError, `float(int)`, sums,
-- differences, and `new + 1e-6 < old`.
pub record Floats (F : Type 0) : Type 0 where
  pub read : Text → Option F
  pub of_int : ℤ → F
  pub plus : F → F → F
  pub minus : F → F → F
  pub went_back : F → F → Bool

-- A `dict` with numbers as keys, in the order in which they came.
abbrev pub IntDict {ℓ} : Type ℓ → Type ℓ
IntDict V = List (ℤ × V)

module _ {ℓ} {V : Type ℓ} where
  unfoldable pub at : ℤ → IntDict V → Option V
  at k [] = none
  at k ((j, v) ∷ d) = let rest = at k d in if eqℤ j k then some v else rest

  unfoldable pub put : ℤ → V → IntDict V → IntDict V
  put k v [] = (k, v) ∷ []
  put k v ((j, w) ∷ d) = let rest = put k v d in if eqℤ j k then (k, v) ∷ d else (j, w) ∷ rest

  pub at-put :
      (k j : ℤ) (v : V) (d : IntDict V) → at j (put k v d) ≡ (if eqℤ k j then some v else at j d)
  unfolding at put
  at-put k j v [] = refl
  at-put k j v ((i, w) ∷ d) = ground (arith, eqℤ_iff i k, eqℤ_iff i j, eqℤ_iff k j, at-put k j v d)

pub record Net : Type 0 where
  pub mobile_rx : ℤ
  pub mobile_tx : ℤ
  pub wifi_rx : ℤ
  pub wifi_tx : ℤ
  pub mobile_active_ms : Option ℤ

pub record ProcUse : Type 0 where
  pub name : Text
  pub user_ms : ℤ
  pub system_ms : ℤ

pub record UidRow (F : Type 0) : Type 0 where
  pub pkgs : List Text
  pub mah : Option F
  pub mah_is_sum : Bool
  pub mah_parts : Dict F
  pub wakelocks : List Wakelock
  pub cpu_user_ms : ℤ
  pub cpu_system_ms : ℤ
  pub procs : List ProcUse
  pub net : Option Net
  pub jobs : List Job

pub record Tables (F : Type 0) : Type 0 where
  pub uid_map : IntDict (List Text)
  pub uids : IntDict (UidRow F)
  pub device_power : Dict F
  pub version : Option Text
  pub capacity : Option F
  pub computed : Option F
  pub discharge : Option (List ℤ)
