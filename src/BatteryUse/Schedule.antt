-- ===== src/BatteryUse/Schedule.antt =====
-- When a sample is due: the intervals, `fork_due`, `mark_attempt`, `_uid_due` and `no_local_adb` of
-- device/termux/py/stayturgid_battery_use.py. Times are whole seconds.
use stayturgid.Base.{
  ℕ, ◌≤◌, arith, ◌+◌, ◌*◌, Bool, true, false, ◌||◌, Option, none, some, List, [], ◌∷◌, Text, codes,
  text_eq, ltb, leb, ◌==◌, if◌then◌else◌, strip, strip_chars, after_prefix, ℤ, pos, negsuc, int_of,
}
use stayturgid.BatteryUse.Procs.{ProcTable}

-- What the process is started with: the environment's variables, and the lines of the file `env` of
-- its directory, if it can be read.
pub record Env : Type 0 where
  pub proc_sec : Option Text
  pub uid_sec : Option Text
  pub dump_timeout : Option Text
  pub no_adb : Option Text
  pub env_file : Option (List Text)

abbrev pub proc_interval_default : ℕ
proc_interval_default = 1800

abbrev pub uid_interval_default : ℕ
uid_interval_default = 6 * 3600

abbrev pub uid_retry_sec : ℕ
uid_retry_sec = 1800

abbrev pub dump_timeout_default : ℕ
dump_timeout_default = 15

abbrev at_least : ℕ → ℕ → ℤ → ℕ
at_least floor default (pos n) = if ltb n floor then default else n
at_least floor default (negsuc n) = default

abbrev or_default : ℕ → Option ℤ → ℤ
or_default default none = pos default
or_default default (some n) = n

-- `_interval`: a missing or unreadable setting, and one below the floor, is the default.
unfoldable pub interval : Option Text → ℕ → ℕ → ℕ
interval none default floor = at_least floor default (pos default)
interval (some s) default floor = at_least floor default (or_default default (int_of s))

at_least-ge : (floor default : ℕ) (n : ℤ) → floor ≤ default → floor ≤ at_least floor default n
at_least-ge floor default (pos n) h = ground arith
at_least-ge floor default (negsuc n) h = h

interval-ge :
    (s : Option Text) (default floor : ℕ) → floor ≤ default → floor ≤ interval s default floor
unfolding interval
interval-ge none default floor h = at_least-ge floor default (pos default) h
interval-ge (some s) default floor h = at_least-ge floor default (or_default default (int_of s)) h

unfoldable pub proc_interval_sec : Env → ℕ
proc_interval_sec env = interval env.proc_sec proc_interval_default 60

unfoldable pub uid_interval_sec : Env → ℕ
uid_interval_sec env = interval env.uid_sec uid_interval_default 300

pub proc_interval_sec-ge : (env : Env) → 60 ≤ proc_interval_sec env
unfolding proc_interval_sec
proc_interval_sec-ge env = interval-ge env.proc_sec proc_interval_default 60 (omega arith)

pub uid_interval_sec-ge : (env : Env) → 300 ≤ uid_interval_sec env
unfolding uid_interval_sec
uid_interval_sec-ge env = interval-ge env.uid_sec uid_interval_default 300 (omega arith)

unfoldable pub dump_timeout_sec : Env → ℕ
dump_timeout_sec env =
    let value = interval env.dump_timeout dump_timeout_default 5 in
    if ltb 40 value then dump_timeout_default else value

-- The time that a dump is given is from 5 to 40 seconds, whatever is set.
pub dump_timeout_sec_bounds : (env : Env) → (5 ≤ dump_timeout_sec env) × (dump_timeout_sec env ≤ 40)
unfolding dump_timeout_sec
dump_timeout_sec_bounds env =
    ground (arith, interval-ge env.dump_timeout dump_timeout_default 5 (omega arith))

-- Battery counters of a user id since the last charge: `base` of `_tracked_rows`, by name.
abbrev pub Counters : Type 0 → Type 0
Counters F = List (Text × F)

-- battery-use.json, as `save_state` writes it. A missing number reads as 0 and a missing text or table
-- as the empty one, as the source's `or 0`, its truth tests and `isinstance` have it.
pub record State (F : Type 0) : Type 0 where
  pub proc_ts : ℕ
  pub attempt_ts : ℕ
  pub uid_ts : ℕ
  pub boot_id : Text
  pub procs : ProcTable
  pub charge_counter : Option ℤ
  pub uids : List (ℤ × Counters F)

abbrev pub max : ℕ → ℕ → ℕ
max a b = if ltb a b then b else a

-- `load_state` of a missing or unreadable file.
abbrev pub no_state : (F : Type 0) → State F
no_state F = record {
  proc_ts = 0;
  attempt_ts = 0;
  uid_ts = 0;
  boot_id = [];
  procs = [];
  charge_counter = none;
  uids = [];
}

module _ {F : Type 0} where
  unfoldable pub fork_due : Env → State F → ℕ → Bool
  fork_due env st now =
      let last = max (max 0 st.proc_ts) st.attempt_ts in
      if last == 0 then true else leb (last + proc_interval_sec env) now

  unfoldable pub mark_attempt : State F → ℕ → State F
  mark_attempt st now = record st { attempt_ts = now }

  unfoldable pub uid_due : State F → ℕ → Bool → ℕ → Bool
  uid_due st now force every = if force then true else st.uid_ts == 0 || leb (st.uid_ts + every) now

abbrev is_one : Option Text → Bool
is_one none = false
is_one (some s) = text_eq s (codes "1")

abbrev quotes : ℕ → ℕ → Bool
quotes q c = c == q

-- The first line that exports the setting decides.
unfoldable pub exports_no_adb : List Text → Bool
exports_no_adb [] = false
exports_no_adb (line ∷ lines) =
    elim (after_prefix (codes "export STAYTURGID_NO_LOCAL_ADB=") (strip line)) [
      | none ↦ exports_no_adb lines
      | some value ↦
          text_eq (strip_chars (quotes b'\'') (strip_chars (quotes b'"') (strip value))) (codes "1")
    ]

unfoldable pub no_local_adb : Env → Bool
no_local_adb env =
    is_one env.no_adb || elim env.env_file [ none ↦ false | some lines ↦ exports_no_adb lines ]
