-- ===== src/BootLoop/Adb.antt =====
-- `_localhost_adb_state` and `_shell_transport` of device/termux/py/start_adb.py. What adb and rish answer
-- are arguments.
pub mod Waiting
use stayturgid.Base.{
  ℕ, zero, suc, ◌+◌, Bool, true, false, ◌&&◌, List, [], ◌∷◌, reverse, Text, codes, text_eq, strip,
  if◌then◌else◌, ℤ, pos, eqℤ, Option, none, some, after_prefix,
}

-- The gated connect's answer.
pub data Connect : Type 0 where
  device waiting down : Connect

-- What one look at the device answers: the connect, and `id -u` in its shell.
pub record Look : Type 0 where
  pub connect : Connect
  pub id_rc : ℤ
  pub id_out : Text

pub data AdbState : Type 0 where
  ready unauthorised unreachable : AdbState

abbrev is_zero : ℤ → Bool
is_zero n = eqℤ n (pos 0)

unfoldable pub localhost_adb_state : Look → AdbState
localhost_adb_state l = elim l.connect [
  | waiting ↦ unauthorised
  | down ↦ unreachable
  | device ↦
      if is_zero l.id_rc && text_eq (strip l.id_out) (codes "2000") then ready else unreachable
]

-- rish: whether it can be run, what `id -u` says in it, and the code of the restart of adbd.
pub record Rish : Type 0 where
  pub executable : Bool
  pub id_rc : ℤ
  pub id_out : Text
  pub restart_rc : ℤ

pub data Transport : Type 0 where
  local_adb recovered : Transport
  no_key unavailable : Transport

-- What the search for a transport did: how often it looked, and whether it had adbd restarted.
pub record Found : Type 0 where
  pub transport : Transport
  pub looks : ℕ
  pub restarted : Bool

-- The looks after a restart, from the look of the given number on.
unfoldable pub poll : ℕ → (ℕ → Look) → ℕ → Found
poll zero look i = record { transport = unavailable; looks = i; restarted = true }
poll (suc n) look i = elim (localhost_adb_state (look i)) [
  | ready ↦ record { transport = recovered; looks = i + 1; restarted = true }
  | unauthorised ↦ record { transport = no_key; looks = i + 1; restarted = true }
  | unreachable ↦ poll n look (i + 1)
]

-- `text.endswith("2000")`
abbrev ends_2000 : Text → Bool
ends_2000 s = elim (after_prefix (codes "0002") (reverse s)) [ none ↦ false | some rest ↦ true ]

abbrev pub has_shell : Rish → Bool
has_shell r = r.executable && is_zero r.id_rc && ends_2000 (strip r.id_out)

unfoldable pub shell_transport : (ℕ → Look) → Rish → Found
shell_transport look rish = elim (localhost_adb_state (look 0)) [
  | ready ↦ record { transport = local_adb; looks = 1; restarted = false }
  | unauthorised ↦ record { transport = no_key; looks = 1; restarted = false }
  | unreachable ↦
      if has_shell rish
      then if is_zero rish.restart_rc
        then poll 8 look 1
        else record { transport = unavailable; looks = 1; restarted = true }
      else record { transport = unavailable; looks = 1; restarted = false }
]
