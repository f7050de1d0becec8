-- ===== src/FleetMonitor/Heal/Limits.antt =====
-- The times between two heals.
use stayturgid.Base.{
  ℕ, ◌+◌, ◌≤◌, ◌≡◌, ◌⊎◌, inl, inr, Bool, true, false, ◌||◌, Option, some, List, [], ◌∷◌, arith, All,
  All-imp, Text, IsSpaced, leb→le, if◌then◌else◌, Bool-cases,
}
use stayturgid.FleetHealth.Report.{Report}
use stayturgid.FleetMonitor.Stamps.{
  Stamp, Device, Switches, agent_heal, repair_heal, Action, sshd_broadcast, heal_triggered,
  cooldown_ok, Result,
}
use stayturgid.FleetMonitor.Heal.{
  Route, heal_cooldown_sec, sshd_recover_cooldown_sec, maybe_heal_agent, maybe_heal_repair_stale,
  maybe_heal_sshd_via_tasker,
}

module _ {A : Type 0} (step : A → ℕ → Device → Result) (sent : List Action → Bool) where
  -- The times of the passes in which the action was taken.
  unfoldable pub times : List (A × ℕ) → Device → List ℕ
  times [] s = []
  times ((a, now) ∷ ps) s =
      let (s', actions) = step a now s in
      let rest = times ps s' in if sent actions then now ∷ rest else rest

  -- A step leaves the stamp as it is and does not act, or its cooldown is over and it is stamped.
  abbrev pub IsLimited : (Device → Stamp) → ℕ → Type 0
  IsLimited stamp cooldown =
      (a : A) (now : ℕ) (s : Device)
      → ((sent (step a now s).1 ≡ false) × (stamp (step a now s).0 ≡ stamp s))
        ⊎ ((cooldown_ok (stamp s) now cooldown ≡ true) × (stamp (step a now s).0 ≡ some now))

  module _ (stamp : Device → Stamp) (cooldown : ℕ) (limited : IsLimited stamp cooldown) where
    times_after :
        (t : ℕ) (ps : List (A × ℕ)) (s : Device)
        → stamp s ≡ some t
        → All (λ u. t + cooldown ≤ u) (times ps s)
    unfolding times cooldown_ok
    times_after t [] s h = tt
    times_after t ((a, now) ∷ ps) s h = elim (limited a now s) [
      | inl (idle, same) ↦ rw (times, idle) (times_after t ps (step a now s).0 (cc))
      | inr (over, new) ↦
          let late : t + cooldown ≤ now = leb→le (t + cooldown) now (rw h at over) in
          let rest =
            All-imp (λ u. now + cooldown ≤ u) (λ u. t + cooldown ≤ u) (times ps (step a now s).0)
              (λ u k. omega (arith, late, k)) (times_after now ps (step a now s).0 new) in
          elim (Bool-cases (sent (step a now s).1)) [
            | inl acted ↦ rw (times, acted) (late, rest)
            | inr idle ↦ rw (times, idle) rest
          ]
    ]

    pub times-IsSpaced : (ps : List (A × ℕ)) (s : Device) → IsSpaced cooldown (times ps s)
    unfolding times
    times-IsSpaced [] s = tt
    times-IsSpaced ((a, now) ∷ ps) s = elim (limited a now s) [
      | inl (idle, same) ↦ rw (times, idle) (times-IsSpaced ps (step a now s).0)
      | inr (over, new) ↦ elim (Bool-cases (sent (step a now s).1)) [
        | inl acted ↦
            rw (times, acted)
              (times_after now ps (step a now s).0 new, times-IsSpaced ps (step a now s).0)
        | inr idle ↦ rw (times, idle) (times-IsSpaced ps (step a now s).0)
      ]
    ]

abbrev pub is_agent_heal : Action → Bool
is_agent_heal (heal_triggered agent_heal) = true
is_agent_heal other = false

abbrev pub is_repair_heal : Action → Bool
is_repair_heal (heal_triggered repair_heal) = true
is_repair_heal other = false

abbrev pub is_sshd_broadcast : Action → Bool
is_sshd_broadcast sshd_broadcast = true
is_sshd_broadcast other = false

abbrev pub any : (Action → Bool) → List Action → Bool
any p [] = false
any p (a ∷ rest) = p a || any p rest

-- What a pass gives to a heal, in its order.
abbrev pub AgentInput : Type 0
AgentInput = Switches × List Text × ℕ × Bool × Bool

abbrev pub RepairInput : Type 0
RepairInput = Switches × List Text × ℕ × Route × Bool

abbrev pub SshdInput : Type 0
SshdInput = Switches × Route × Report × Option Text × Bool

abbrev pub agent_step : AgentInput → ℕ → Device → Result
agent_step (w, issues, fails, script, ran) now s = maybe_heal_agent w issues fails script ran now s

abbrev pub repair_step : RepairInput → ℕ → Device → Result
repair_step (w, issues, fails, path, ran) now s =
    maybe_heal_repair_stale w issues fails path ran now s

abbrev pub sshd_step : SshdInput → ℕ → Device → Result
sshd_step (w, path, r, target, ran) now s = maybe_heal_sshd_via_tasker w path r target ran now s

agent-IsLimited : IsLimited agent_step (any is_agent_heal) (λ s. s.agent_heal) heal_cooldown_sec
unfolding maybe_heal_agent
agent-IsLimited (w, issues, fails, script, ran) now s = ground arith

repair-IsLimited : IsLimited repair_step (any is_repair_heal) (λ s. s.repair_heal) heal_cooldown_sec
unfolding maybe_heal_repair_stale
repair-IsLimited (w, issues, fails, path, ran) now s = ground arith

sshd-IsLimited :
    IsLimited sshd_step (any is_sshd_broadcast) (λ s. s.sshd_heal) sshd_recover_cooldown_sec
unfolding maybe_heal_sshd_via_tasker
sshd-IsLimited (w, path, r, target, ran) now s = ground arith

-- The restarts of the agent that succeed are at least 30 minutes apart.
pub agent_heals-IsSpaced :
    (ps : List (AgentInput × ℕ)) (s : Device)
    → IsSpaced 1800 (times agent_step (any is_agent_heal) ps s)
agent_heals-IsSpaced ps s =
    times-IsSpaced agent_step (any is_agent_heal) (λ s. s.agent_heal) heal_cooldown_sec
      agent-IsLimited ps s

-- The restarts of the boot loop that succeed are at least 30 minutes apart.
pub repair_heals-IsSpaced :
    (ps : List (RepairInput × ℕ)) (s : Device)
    → IsSpaced 1800 (times repair_step (any is_repair_heal) ps s)
repair_heals-IsSpaced ps s =
    times-IsSpaced repair_step (any is_repair_heal) (λ s. s.repair_heal) heal_cooldown_sec
      repair-IsLimited ps s

-- The broadcasts to restart sshd, failed ones too, are at least 10 minutes apart.
pub sshd_broadcasts-IsSpaced :
    (ps : List (SshdInput × ℕ)) (s : Device)
    → IsSpaced 600 (times sshd_step (any is_sshd_broadcast) ps s)
sshd_broadcasts-IsSpaced ps s =
    times-IsSpaced sshd_step (any is_sshd_broadcast) (λ s. s.sshd_heal) sshd_recover_cooldown_sec
      sshd-IsLimited ps s
