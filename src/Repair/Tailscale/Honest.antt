-- ===== src/Repair/Tailscale/Honest.antt =====
-- That a result of `ensure_tailscale` is what was seen.
use stayturgid.Base.{
  ℕ, zero, suc, ◌+◌, ◌≤◌, ◌<◌, ◌≡◌, refl, sym, inl, inr, ◌⊎◌, Bool, true, false, List, [], ◌∷◌,
  ◌++◌, arith, Bool-cases,
}
use mathlib.Core.Path.{subst}
use stayturgid.Repair.Tailscale.{
  Command, connect_vpn, Device, Result, skip, unknown, up, repaired, failed, policy_up,
  wait_for_tailscale, ensure_tailscale, puts,
}

-- What each result stands for. `up` and `repaired` want the policy right and the tunnel seen up, at the
-- first look or at one of three later ones; a broadcast goes out only where the first look saw it down,
-- and nothing is changed without a shell.
abbrev pub IsHonest : Device → Bool → Result × List Command → Type 0
IsHonest d have_sh (skip, cs) = ((d.enabled ≡ false) ⊎ (d.installed ≡ false)) × (cs ≡ [])
IsHonest d have_sh (unknown, cs) = (have_sh ≡ false) × (cs ≡ [])
IsHonest d have_sh (up, cs) =
    (policy_up d ≡ true) × (d.runtime_up 0 ≡ true) × (cs ≡ puts) × (have_sh ≡ true)
IsHonest d have_sh (repaired, cs) =
    (policy_up d ≡ true)
    × (d.runtime_up 0 ≡ false)
    × ((i : ℕ) × (0 < i) × (i ≤ 3) × (d.runtime_up i ≡ true))
    × (cs ≡ puts ++ connect_vpn ∷ [])
    × (have_sh ≡ true)
IsHonest d have_sh (failed, cs) =
    (have_sh ≡ true)
    × ((policy_up d ≡ false)
        ⊎ ((d.runtime_up 0 ≡ false)
            × (d.runtime_up 1 ≡ false)
            × (d.runtime_up 2 ≡ false)
            × (d.runtime_up 3 ≡ false)))

waited :
    (n : ℕ) (d : Device) (i : ℕ)
    → wait_for_tailscale n d i ≡ true
    → (j : ℕ) × (i ≤ j) × (j < n + i) × (d.runtime_up j ≡ true)
unfolding wait_for_tailscale
waited zero d i h = absurd (cc h)
waited (suc n) d i h = elim (Bool-cases (d.runtime_up i)) [
  | inl now ↦ (i, omega arith, omega arith, now)
  | inr later ↦
      let (j, a, b, e) = waited n d (i + 1) (rw (wait_for_tailscale, later) at h) in
      (j, omega arith, omega arith, e)
]

vain_step :
    (n : ℕ) (d : Device) (i : ℕ)
    → wait_for_tailscale (suc n) d i ≡ false
    → (d.runtime_up i ≡ false) × (wait_for_tailscale n d (i + 1) ≡ false)
unfolding wait_for_tailscale
vain_step n d i h = elim (Bool-cases (d.runtime_up i)) [
  | inl now ↦ absurd (cc (rw (wait_for_tailscale, now) at h))
  | inr later ↦ (later, rw (wait_for_tailscale, later) at h)
]

waited_in_vain :
    (d : Device)
    → wait_for_tailscale 3 d 1 ≡ false
    → (d.runtime_up 1 ≡ false) × (d.runtime_up 2 ≡ false) × (d.runtime_up 3 ≡ false)
waited_in_vain d h =
    let (one, rest) = vain_step 2 d 1 h in
    let (two, rest') = vain_step 1 d 2 rest in (one, two, (vain_step 0 d 3 rest').0)

told :
    (d : Device) (have_sh : Bool) (r : Result × List Command)
    → ensure_tailscale d have_sh ≡ r
    → IsHonest d have_sh r
    → IsHonest d have_sh (ensure_tailscale d have_sh)
told d have_sh r e h = subst (IsHonest d have_sh) (sym e) h

-- `ensure_tailscale` reports what it has seen: a tunnel that is up or repaired with its policy, a failure
-- of one of the two, or that it cannot see, and then it changes nothing.
pub ensure_tailscale-IsHonest :
    (d : Device) (have_sh : Bool) → IsHonest d have_sh (ensure_tailscale d have_sh)
unfolding ensure_tailscale
ensure_tailscale-IsHonest d have_sh = elim (Bool-cases d.enabled) [
  | inr off ↦ told d have_sh (skip, []) (rw off refl) (inl off, refl)
  | inl on ↦ elim (Bool-cases d.installed) [
    | inr gone ↦ told d have_sh (skip, []) (rw (gone, on) refl) (inr gone, refl)
    | inl there ↦ elim (Bool-cases have_sh) [
      | inr blind ↦ told d have_sh (unknown, []) (rw (blind, there, on) refl) (blind, refl)
      | inl sees ↦ elim (Bool-cases (d.runtime_up 0)) [
        | inl runs ↦ elim (Bool-cases (policy_up d)) [
          | inl right ↦
              told d have_sh (up, puts) (rw (right, runs, sees, there, on) refl)
                (right, runs, refl, sees)
          | inr wrong ↦
              told d have_sh (failed, puts) (rw (wrong, runs, sees, there, on) refl)
                (sees, inl wrong)
        ]
        | inr down ↦ elim (Bool-cases (wait_for_tailscale 3 d 1)) [
          | inr never ↦
              let (one, two, three) = waited_in_vain d never in
              told d have_sh (failed, puts ++ connect_vpn ∷ [])
                (rw (never, down, sees, there, on) refl) (sees, inr (down, one, two, three))
          | inl back ↦ elim (Bool-cases (policy_up d)) [
            | inr wrong ↦
                told d have_sh (failed, puts ++ connect_vpn ∷ [])
                  (rw (wrong, back, down, sees, there, on) refl) (sees, inl wrong)
            | inl right ↦
                let (j, a, b, e) = waited 3 d 1 back in
                told d have_sh (repaired, puts ++ connect_vpn ∷ [])
                  (rw (right, back, down, sees, there, on) refl)
                  (right, down, (j, omega arith, omega arith, e), refl, sees)
          ]
        ]
      ]
    ]
  ]
]
