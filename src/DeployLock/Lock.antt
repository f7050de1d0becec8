-- ===== src/DeployLock/Lock.antt =====
-- `fleet_lock` of control/lib/fleet_deploy_lock.py, with the operating system's `flock` as a parameter.
-- A number stands for a process with its open file. A failed `flock` and the reading of the note are
-- one step, and so are `truncate` and `json.dump`.
use stayturgid.Base.{ℕ, ◌≡◌, ◌≢◌, Bool, true, false, Option, none, some, Text, ◌==◌, if◌then◌else◌}

-- `flock` on one file: the locks, which process holds it, and what a call that does not wait does.
pub record Flock : Type 1 where
  pub Locks : Type 0
  pub free : Locks
  pub holder : Locks → Option ℕ
  pub try_lock : ℕ → Locks → Bool × Locks
  pub unlock : ℕ → Locks → Locks

-- What its manual says. `close` of the file, also at the end of a process, unlocks.
pub record IsFlock (f : Flock) : Type 0 where
  pub starts_free : f.holder f.free ≡ none
  pub takes :
      (p : ℕ) (k : f.Locks)
      → f.holder k ≡ none
      → ((f.try_lock p k).0 ≡ true) × (f.holder (f.try_lock p k).1 ≡ some p)
  pub refuses :
      (p q : ℕ) (k : f.Locks)
      → f.holder k ≡ some q
      → q ≢ p
      → ((f.try_lock p k).0 ≡ false) × (f.holder (f.try_lock p k).1 ≡ some q)
  pub releases : (p : ℕ) (k : f.Locks) → f.holder k ≡ some p → f.holder (f.unlock p k) ≡ none
  pub keeps : (p : ℕ) (k : f.Locks) → f.holder k ≢ some p → f.holder (f.unlock p k) ≡ f.holder k

-- What the holder writes into the file.
pub record Holder : Type 0 where
  pub label : Text
  pub pid : ℕ
  pub started_at : Text

-- Where a process stands: outside, in the file with the lock but before its note, in the body, after
-- `LOCK_UN` but before `close`, or with `FleetLockHeld` and the note that it read.
pub data Phase : Type 0 where
  away locked inside leaving : Phase
  held_up : Option Holder → Phase

pub record State (f : Flock) : Type 0 where
  pub locks : f.Locks
  pub phases : ℕ → Phase
  pub note : Option Holder

abbrev pub set_phase : ℕ → Phase → (ℕ → Phase) → ℕ → Phase
set_phase p x phases q = if p == q then x else phases q

-- What a process does next. It may die at any time.
pub data Event : Type 0 where
  try leave close die : ℕ → Event
  write : ℕ → Text → Text → Event

module _ (f : Flock) where
  -- `open` and `flock(LOCK_EX | LOCK_NB)`
  unfoldable pub try_phase : ℕ → Phase → State f → State f
  try_phase p away s =
      let (got, k) = f.try_lock p s.locks in
      record {
        locks = if got then k else f.unlock p k;
        phases = set_phase p (if got then locked else held_up s.note) s.phases;
        note = s.note;
      }
  try_phase p other s = s

  -- `json.dump`
  unfoldable pub write_phase : ℕ → Text → Text → Phase → State f → State f
  write_phase p label now locked s = record s {
    phases = set_phase p inside s.phases;
    note = some (record { label = label; pid = p; started_at = now });
  }
  write_phase p label now other s = s

  -- `LOCK_UN`
  unfoldable pub leave_phase : ℕ → Phase → State f → State f
  leave_phase p inside s = record s {
    locks = f.unlock p s.locks;
    phases = set_phase p leaving s.phases;
  }
  leave_phase p other s = s

  -- `fd.close`, or the end of the process.
  abbrev pub close_file : ℕ → State f → State f
  close_file p s = record s { locks = f.unlock p s.locks; phases = set_phase p away s.phases }

  unfoldable pub close_phase : ℕ → Phase → State f → State f
  close_phase p leaving s = close_file p s
  close_phase p other s = s

  unfoldable pub step : Event → State f → State f
  step (try p) s = try_phase p (s.phases p) s
  step (write p label now) s = write_phase p label now (s.phases p) s
  step (leave p) s = leave_phase p (s.phases p) s
  step (close p) s = close_phase p (s.phases p) s
  step (die p) s = close_file p s

  abbrev pub start : State f
  start = record { locks = f.free; phases = λ p. away; note = none }
