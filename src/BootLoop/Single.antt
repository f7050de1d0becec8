-- ===== src/BootLoop/Single.antt =====
-- The start of the loop in device/termux/py/start_adb.py: `_running_bootloop_pid`, and `main` from its test
-- of a running loop on. A start looks, forks and writes the pid in steps of their own, between which other
-- programs start and processes end. Nothing in the source keeps two starts from overlapping, and
-- nothing here does. The processes of the phone are a table.
pub mod Sole
use stayturgid.Base.{
  ℕ, ◌≡◌, ◌<◌, Bool, true, false, ◌||◌, Option, none, some, List, [], ◌∷◌, ◌++◌, Text, codes, ◌==◌,
  if◌then◌else◌, ltb,
}
use stayturgid.BatteryUse.Report.{occurs}

-- A process: a loop of this file, or a program with its command line.
pub data Process : Type 0 where
  loop : Process
  program : Text → Process

abbrev pub Table : Type 0
Table = List (ℕ × Process)

-- The pid that the pid file holds, 0 for a file that is missing or no number, and the processes.
pub record Device : Type 0 where
  pub pid_file : ℕ
  pub table : Table

abbrev pub cmdline : Process → Text
cmdline loop = codes "python3 /data/data/com.termux/files/home/.stayturgid/bin/start_adb.py"
cmdline (program cmd) = cmd

unfoldable pub process : ℕ → Table → Option Process
process pid [] = none
process pid ((p, x) ∷ ps) = let rest = process pid ps in if p == pid then some x else rest

-- The pid of a live loop that the pid file names, or 0.
unfoldable pub running_bootloop_pid : Device → ℕ
running_bootloop_pid d = if d.pid_file == 0 then 0 else elim (process d.pid_file d.table) [
  | none ↦ 0
  | some x ↦ if occurs (codes "start_adb") (cmdline x) then d.pid_file else 0
]

-- How far a start that is under way is: it has seen no running loop, or it has forked the loop and not
-- yet written its pid.
pub data Stage : Type 0 where
  looked : Stage
  forked : ℕ → Stage

-- The test of a running loop, with the starts under way: with a loop, this start returns.
unfoldable pub look : Device → List Stage → List Stage
look d starts = if running_bootloop_pid d == 0 then looked ∷ starts else starts

-- The child is the loop.
unfoldable pub fork : ℕ → Device → Device
fork pid d = record d { table = (pid, loop) ∷ d.table }

-- The parent's write of the pid file, one that does not fail.
unfoldable pub write_pid : ℕ → Device → Device
write_pid pid d = record d { pid_file = pid }

unfoldable pub without : ℕ → Table → Table
without pid [] = []
without pid ((p, x) ∷ ps) = let rest = without pid ps in if p == pid then rest else (p, x) ∷ rest

pub record System : Type 0 where
  pub device : Device
  pub starts : List Stage

-- One of the starts, at a stage, moves: it is replaced by these.
pub data Moves (a : Stage) (bs : List Stage) : List Stage → List Stage → Type 0 where
  here : {xs : List Stage} → Moves a bs (a ∷ xs) (bs ++ xs)
  there : {x : Stage} {xs ys : List Stage} → Moves a bs xs ys → Moves a bs (x ∷ xs) (x ∷ ys)

-- What happens on the phone, in any order: a start looks, one that has looked forks with a pid that is
-- free, or is killed, one that has forked writes the pid down; another program starts; and any process ends,
-- a loop or not.
pub data Step (s : System) : System → Type 0 where
  looks : Step s (record s { starts = look s.device s.starts })
  forks :
      {pid : ℕ} {starts : List Stage}
      → Moves looked (forked pid ∷ []) s.starts starts
      → 0 < pid
      → process pid s.device.table ≡ none
      → Step s (record { device = fork pid s.device; starts = starts })
  writes :
      {pid : ℕ} {starts : List Stage}
      → Moves (forked pid) [] s.starts starts
      → Step s (record { device = write_pid pid s.device; starts = starts })
  killed :
      {starts : List Stage}
      → Moves looked [] s.starts starts
      → Step s (record s { starts = starts })
  spawn :
      {pid : ℕ} {cmd : Text}
      → process pid s.device.table ≡ none
      → Step s
          (record s { device = record s.device { table = (pid, program cmd) ∷ s.device.table } })
  exit :
      (pid : ℕ)
      → Step s (record s { device = record s.device { table = without pid s.device.table } })

pub data Steps : System → System → Type 0 where
  done : {s : System} → Steps s s
  step : {s t u : System} → Step s t → Steps t u → Steps s u
