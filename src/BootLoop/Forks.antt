-- ===== src/BootLoop/Forks.antt =====
-- `_run_battery_use` of device/termux/py/start_adb.py: the forks of the battery use sampler.
use stayturgid.Base.{
  ℕ, ◌+◌, ◌≤◌, ◌<◌, ◌≡◌, refl, inl, inr, ◌⊎◌, Bool, true, false, not, ◌||◌, Option, none, some,
  List, [], ◌∷◌, arith, All, IsSpaced, Bool-cases, if◌then◌else◌,
}
use stayturgid.BatteryUse.Tables.{Floats}
use stayturgid.BatteryUse.Schedule.{Env, State, proc_interval_sec, fork_due, mark_attempt, max}
use stayturgid.BatteryUse.Sample.{Phone, complete, saved, uid_part, record_sample}
use stayturgid.BatteryUse.Sample.Dumps.{Pass, after}

-- A pass of the loop: its time, whether the sampler is installed and can be imported, and what its
-- process does: it is killed or fails before it saves, or it takes a sample. The state file can be read
-- and written; without that the loop does not fork.
pub record LoopPass : Type 0 where
  pub now : ℕ
  pub installed : Bool
  pub child : Option Pass

module _ {F : Type 0} (fl : Floats F) where
  unfoldable pub sampler : Env → Option Pass → State F → State F
  sampler env none st = st
  sampler env (some p) st = after fl (record_sample fl env p.phone p.run p.now false st).0 st

  -- The state file after the pass, and whether it forked.
  unfoldable pub run_battery_use : Env → LoopPass → State F → State F × Bool
  run_battery_use env p st =
      if not p.installed || not (fork_due env st p.now)
      then (st, false)
      else (sampler env p.child (mark_attempt st p.now), true)

  -- The times of the passes that forked.
  unfoldable pub fork_times : Env → List LoopPass → State F → List ℕ
  fork_times env [] st = []
  fork_times env (p ∷ ps) st =
      let (st', forked) = run_battery_use env p st in
      let rest = fork_times env ps st' in if forked then p.now ∷ rest else rest

  -- The sampler's clock is not behind the loop's.
  abbrev pub IsLater : ℕ → Option Pass → Type 0
  IsLater now none = Unit
  IsLater now (some p) = now ≤ p.now

  abbrev pub IsTimed : LoopPass → Type 0
  IsTimed p = (0 < p.now) × IsLater p.now p.child

  abbrev last_ts : State F → ℕ
  last_ts st = max (max 0 st.proc_ts) st.attempt_ts

  -- What `complete` saves is stamped with its time, or nothing is saved.
  complete-last_ts :
      (phone : Phone) (now : ℕ) (st : State F) (r : Option (_ × State F)) (ran : Bool) (lo : ℕ)
      → lo ≤ now
      → lo ≤ last_ts st
      → lo ≤ last_ts (after fl (complete fl phone now st (r, ran)).0 st)
  unfolding complete saved
  complete-last_ts phone now st none ran lo h k = k
  complete-last_ts phone now st (some (part, st')) ran lo h k = ground arith

  sampler-last_ts :
      (env : Env) (c : Option Pass) (st : State F) (lo : ℕ)
      → IsLater lo c
      → lo ≤ last_ts st
      → lo ≤ last_ts (sampler env c st)
  unfolding sampler record_sample
  sampler-last_ts env none st lo h k = k
  sampler-last_ts env (some p) st lo h k =
      let u = uid_part fl env p.run p.now false st in
      complete-last_ts p.phone p.now st u.0 u.1 lo h k

  fork_due-le :
      (env : Env) (st : State F) (now lo : ℕ)
      → 0 < lo
      → lo ≤ last_ts st
      → fork_due env st now ≡ true
      → lo + proc_interval_sec env ≤ now
  unfolding fork_due
  fork_due-le env st now lo pos h due = ground arith

  mark_attempt-last_ts : (st : State F) (now : ℕ) → now ≤ last_ts (mark_attempt st now)
  unfolding mark_attempt
  mark_attempt-last_ts st now = ground arith

  -- A pass does not fork and leaves the state, or it forks when it is due and stamps the state.
  abbrev IsGated : Env → LoopPass → State F → State F × Bool → Type 0
  IsGated env p st r =
      (r ≡ (st, false)) ⊎ ((r.1 ≡ true) × (fork_due env st p.now ≡ true) × (p.now ≤ last_ts r.0))

  run_battery_use-IsGated :
      (env : Env) (p : LoopPass) (st : State F)
      → IsTimed p
      → IsGated env p st (run_battery_use env p st)
  unfolding run_battery_use
  run_battery_use-IsGated env p st h =
      elim (Bool-cases (not p.installed || not (fork_due env st p.now))) [
        | inl idle ↦ inl (rw idle refl)
        | inr go ↦ rw go (
            inr (
              refl,
              ground (arith, go),
              sampler-last_ts env p.child (mark_attempt st p.now) p.now h.1
                  (mark_attempt-last_ts st p.now),
            ))
      ]

  fork_times_after :
      (env : Env) (lo : ℕ) (ps : List LoopPass) (st : State F)
      → 0 < lo
      → All IsTimed ps
      → lo ≤ last_ts st
      → All (λ t. lo + proc_interval_sec env ≤ t) (fork_times env ps st)
  unfolding fork_times
  fork_times_after env lo [] st pos h k = tt
  fork_times_after env lo (p ∷ ps) st pos h k = elim (run_battery_use-IsGated env p st h.0) [
    | inl same ↦ rw same (fork_times_after env lo ps st pos h.1 k)
    | inr (forked, due, stamped) ↦
        let late = fork_due-le env st p.now lo pos k due in
        rw forked (
          late,
          fork_times_after env lo ps (run_battery_use env p st).0 pos h.1
              (omega (arith, late, stamped)),
        )
  ]

  -- Between two forks of the sampler there is the interval, also where a sampler was killed, if the
  -- clock is not at 0 and the sampler's is not behind the loop's.
  pub fork_times-IsSpaced :
      (env : Env) (ps : List LoopPass) (st : State F)
      → All IsTimed ps
      → IsSpaced (proc_interval_sec env) (fork_times env ps st)
  unfolding fork_times
  fork_times-IsSpaced env [] st h = tt
  fork_times-IsSpaced env (p ∷ ps) st h = elim (run_battery_use-IsGated env p st h.0) [
    | inl same ↦ rw same (fork_times-IsSpaced env ps st h.1)
    | inr (forked, due, stamped) ↦ rw forked (
      fork_times_after env p.now ps (run_battery_use env p st).0 h.0.0 h.1 stamped,
      fork_times-IsSpaced env ps (run_battery_use env p st).0 h.1,
    )
  ]
