-- ===== src/BatteryUse/Procs.antt =====
-- The process sample of device/termux/py/stayturgid_battery_use.py: `select_procs` and `proc_delta`.
pub mod Selection
pub mod Increases
use stayturgid.Base.{
  ℕ, ◌*◌, Bool, true, false, not, ◌&&◌, Option, none, some, List, [], ◌∷◌, ◌++◌, map, Text, codes,
  member, take, if◌then◌else◌, ◌==◌, ℤ, pos, ◌+ℤ◌, negℤ, eqℤ, lebℤ, ranked, decimal,
}

-- A row of `scan_procs`.
pub record Proc : Type 0 where
  pub pid : ℕ
  pub start : ℤ
  pub cpu_ticks : ℤ
  pub cmd : Text

abbrev pub proc_top_n : ℕ
proc_top_n = 30

abbrev pub cfengine_cmds : List Text
cfengine_cmds =
    codes "cf-agent"
    ∷ codes "cf-execd"
    ∷ codes "cf-serverd"
    ∷ codes "cf-monitord"
    ∷ codes "cf-promises"
    ∷ codes "cf-hub"
    ∷ []

-- `text.split(" ", 1)[0]`
unfoldable pub first_word : Text → Text
first_word [] = []
first_word (c ∷ s) = let rest = first_word s in if c == b' ' then [] else c ∷ rest

-- `text.rsplit("/", 1)[-1]`: what follows the last slash.
unfoldable pub base_name : Text → Text → Text
base_name word [] = word
base_name word (c ∷ s) = elim (c == b'/') [
  | true ↦ base_name [] s
  | false ↦ base_name (word ++ c ∷ []) s
]

unfoldable pub proc_cmd_name : Text → Text
proc_cmd_name cmd = base_name [] (first_word cmd)

unfoldable pub is_daemon : Proc → Bool
is_daemon p = member (proc_cmd_name p.cmd) cfengine_cmds

abbrev pub has_pid : ℕ → List Proc → Bool
has_pid n [] = false
has_pid n (p ∷ ps) = if p.pid == n then true else has_pid n ps

-- The CFEngine daemons among the processes whose pid is not seen.
unfoldable pub missed : List Proc → List Proc → List Proc
missed top [] = []
missed top (p ∷ ps) =
    let rest = missed top ps in if not (has_pid p.pid top) && is_daemon p then p ∷ rest else rest

-- Busiest processes, then any CFEngine daemon the top list missed.
unfoldable pub select_procs : List Proc → List Proc
select_procs procs =
    let by_ticks = ranked (λ p. p.cpu_ticks) procs in
    let top = take proc_top_n by_ticks in top ++ missed top by_ticks

-- The saved process table: the ticks by pid and start time, which the file joins to one key.
abbrev pub ProcTable : Type 0
ProcTable = List ((ℕ × ℤ) × ℤ)

unfoldable pub ticks_of : ProcTable → ℕ → ℤ → Option ℤ
ticks_of [] n s = none
ticks_of (((m, t), ticks) ∷ table) n s =
    let rest = ticks_of table n s in if m == n && eqℤ t s then some ticks else rest

-- The ticks that one process adds, if it is in the table and its count has not gone back.
unfoldable pub increase : ProcTable → Proc → Option ℤ
increase prev p = elim (ticks_of prev p.pid p.start) [
  | none ↦ none
  | some old ↦ if lebℤ old p.cpu_ticks then some (p.cpu_ticks +ℤ negℤ old) else none
]

-- The loop of `proc_delta`: `total` and `used`.
unfoldable pub add_increases : ProcTable → List Proc → ℤ → Bool → Option ℤ
add_increases prev [] total used = if used then some total else none
add_increases prev (p ∷ ps) total used = elim (increase prev p) [
  | none ↦ add_increases prev ps total used
  | some d ↦ add_increases prev ps (total +ℤ d) true
]

unfoldable pub proc_delta : ProcTable → List Proc → Option ℤ
proc_delta prev procs = add_increases prev procs (pos 0) false
