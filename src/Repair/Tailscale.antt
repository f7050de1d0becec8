-- ===== src/Repair/Tailscale.antt =====
-- `ensure_tailscale`, `_wait_for_tailscale` and `_tailscale_policy_up` of
-- device/termux/py/stayturgid_repair.py. What the device answers is an argument.
pub mod Honest
use stayturgid.Base.{
  ℕ, zero, suc, ◌+◌, Bool, true, false, not, ◌&&◌, List, [], ◌∷◌, ◌++◌, Text, codes, text_eq, strip,
  if◌then◌else◌,
}

pub data Command : Type 0 where
  put_app put_lockdown connect_vpn : Command

-- The answers: the two settings as they read after they were put, and whether the tunnel is up each time
-- that the pass looks.
pub record Device : Type 0 where
  pub enabled : Bool
  pub installed : Bool
  pub app : Text
  pub lockdown : Text
  pub runtime_up : ℕ → Bool

pub data Result : Type 0 where
  skip unknown up repaired : Result
  failed : Result

unfoldable pub policy_up : Device → Bool
policy_up d =
    text_eq (strip d.app) (codes "com.tailscale.ipn") && text_eq (strip d.lockdown) (codes "0")

-- `_wait_for_tailscale`, from the look of the given number on.
unfoldable pub wait_for_tailscale : ℕ → Device → ℕ → Bool
wait_for_tailscale zero d i = false
wait_for_tailscale (suc n) d i = elim (d.runtime_up i) [
  | true ↦ true
  | false ↦ wait_for_tailscale n d (i + 1)
]

abbrev pub puts : List Command
puts = put_app ∷ put_lockdown ∷ []

-- The result and the commands that change the device.
unfoldable pub ensure_tailscale : Device → Bool → Result × List Command
ensure_tailscale d have_sh =
    if not d.enabled
    then (skip, [])
    else if not d.installed
    then (skip, [])
    else if not have_sh
    then (unknown, [])
    else if d.runtime_up 0
    then (if policy_up d then up else failed, puts)
    else (
      if wait_for_tailscale 3 d 1 && policy_up d then repaired else failed,
      puts ++ connect_vpn ∷ [],
    )
