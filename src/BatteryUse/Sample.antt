-- ===== src/BatteryUse/Sample.antt =====
-- `record` of device/termux/py/stayturgid_battery_use.py.
pub mod Dumps
pub mod Baselines
use stayturgid.Base.{
  ℕ, ◌+◌, ◌-◌, ◌*◌, Bool, true, false, not, ◌||◌, ◌&&◌, Option, none, some, List, [], ◌∷◌, ◌++◌,
  map, reverse, Text, codes, text_eq, is_empty, strip, length, take, ltb, leb, if◌then◌else◌, Dict,
  get, assign, ℤ, pos, eqℤ, lebℤ, negℤ, ◌+ℤ◌, int_of,
}
use stayturgid.BatteryUse.Procs.{Proc, ProcTable, select_procs, proc_delta}
use stayturgid.BatteryUse.Schedule.{
  Env, uid_retry_sec, uid_interval_sec, dump_timeout_sec, Counters, State, uid_due, no_local_adb,
}
use stayturgid.BatteryUse.Tables.{Floats, IntDict}
use stayturgid.BatteryUse.Report.{Parsed, checkin, human, is_parsed, parse_batterystats}
use stayturgid.BatteryUse.Rows.{Row, tracked_rows, tracked_mah}
use stayturgid.BatteryUse.Gauge.{Ran, StatusFile, int_value, field, Gauge, read_gauge}

-- What a sample reads of the phone.
pub record Phone : Type 0 where
  pub boot_id : Text
  pub procs : List Proc
  pub status : Option StatusFile

pub data UidError : Type 0 where
  command_error : Text → UidError
  exit_code : Option ℤ → UidError
  unparsed : UidError

-- What a sample says of the battery statistics.
pub data UidPart (F : Type 0) : Type 0 where
  not_due no_adb : UidPart F
  uid_error : UidError → UidPart F
  uid_rows :
      (parsed : Parsed F)
      → (packages : List (Row F)) → (total : Option F) → (partial : Bool) → UidPart F

pub record Sample (F : Type 0) : Type 0 where
  pub ts : ℕ
  pub boot_id : Text
  pub gauge : Gauge
  pub n_procs : ℕ
  pub d_cpu_ticks : Option ℤ
  pub procs : List Proc
  pub d_charge_uah : Option ℤ
  pub uid_part : UidPart F

-- The table that is saved: of two rows for one key the later one is found.
abbrev pub table_of : List Proc → ProcTable
table_of procs = reverse (map (λ p. ((p.pid, p.start), p.cpu_ticks)) procs)

abbrev either : Option ℤ → Option ℤ → Option ℤ
either none old = old
either (some n) old = some n

abbrev pub charge_change : Option ℤ → Option ℤ → Option ℤ
charge_change none new = none
charge_change (some old) none = none
charge_change (some old) (some new) = some (new +ℤ negℤ old)

abbrev pub is_ok : Option ℤ → Bool
is_ok none = false
is_ok (some n) = eqℤ n (pos 0)

-- `now + UID_RETRY_SEC - uid_interval_sec`, which makes the next dump due after the retry time. It is
-- 0 here where the source's number is negative: a dump is due at once after either.
unfoldable pub retry_at : Env → ℕ → ℕ
retry_at env now = now + uid_retry_sec - uid_interval_sec env

module _ {F : Type 0} where
  -- The process table to compare with: none of another boot, or of an unknown one.
  unfoldable pub previous_procs : Text → State F → ProcTable
  previous_procs boot st =
      if is_empty boot || not (is_empty st.boot_id) && not (text_eq boot st.boot_id)
      then []
      else st.procs

  -- The baselines after a dump: a truncated one leaves out the later user ids.
  unfoldable pub next_uids :
      Bool → Parsed F → IntDict (Counters F) → IntDict (Counters F) → IntDict (Counters F)
  next_uids true parsed new old = old
  next_uids false (checkin t) new old = new
  next_uids false (human p) [] old = old
  next_uids false (human p) (b ∷ new) old = b ∷ new

  -- The state that is saved.
  unfoldable pub saved : Phone → Option ℤ → ℕ → State F → State F
  saved phone charge now st = record st {
    proc_ts = now;
    attempt_ts = now;
    boot_id = phone.boot_id;
    procs = table_of phone.procs;
    charge_counter = either charge st.charge_counter;
  }

module _ {F : Type 0} (fl : Floats F) where
  abbrev uid_failed : Env → ℕ → UidError → State F → UidPart F × State F
  uid_failed env now e st = (uid_error e, record st { uid_ts = retry_at env now })

  -- What a dump that could be read adds.
  unfoldable pub use_dump : Parsed F → Bool → ℕ → State F → UidPart F × State F
  use_dump parsed truncated now st =
      let (rows, bases) = tracked_rows fl parsed st.uids in
      (
        uid_rows parsed rows (tracked_mah fl rows) truncated,
        record st { uid_ts = now; uids = next_uids truncated parsed bases st.uids },
      )

  -- What the dump's command leaves; `none` is a ValueError of the prose report.
  unfoldable pub read_dump : Env → Ran → ℕ → State F → Option (UidPart F × State F)
  read_dump env ran now st =
      if not (is_ok ran.rc) || is_empty (strip ran.text)
      then some (
          uid_failed env now
            (if is_empty ran.err then exit_code ran.rc else command_error (take 200 ran.err)) st)
      else elim (parse_batterystats fl ran.text) [
        | none ↦ none
        | some parsed ↦
            if not (is_parsed fl parsed)
            then some (uid_failed env now unparsed st)
            else some (use_dump parsed ran.truncated now st)
      ]

  -- The battery statistics of a sample; the flag says that the dump's command was run.
  unfoldable pub uid_part :
      Env → (ℕ → Ran) → ℕ → Bool → State F → Option (UidPart F × State F) × Bool
  uid_part env run now force st =
      if not (uid_due st now force (uid_interval_sec env))
      then (some (not_due, st), false)
      else if no_local_adb env
      then (some (no_adb, if force then st else record st { uid_ts = now }), false)
      else (read_dump env (run (dump_timeout_sec env)) now st, true)

  abbrev charge_of : Gauge → Option ℤ
  charge_of g = int_value (field (codes "charge_counter") g.fields)

  -- The part of `record` around the battery statistics: the sample, which is appended to the log, and
  -- the state that is saved, unless a ValueError ended it before both.
  unfoldable pub complete :
      Phone → ℕ → State F → Option (UidPart F × State F) × Bool → Option (Sample F × State F) × Bool
  complete phone now st (part, ran) =
      let gauge = read_gauge phone.status now in
      (
        elim part [
          | none ↦ none
          | some (uids, st') ↦ some (
            record {
              ts = now;
              boot_id = phone.boot_id;
              gauge = gauge;
              n_procs = length phone.procs;
              d_cpu_ticks = proc_delta (previous_procs phone.boot_id st) phone.procs;
              procs = select_procs phone.procs;
              d_charge_uah = charge_change st.charge_counter (charge_of gauge);
              uid_part = uids;
            },
            saved phone (charge_of gauge) now st',
          )
        ],
        ran,
      )

  -- `record`; the flag says that the dump's command was run.
  unfoldable pub record_sample :
      Env → Phone → (ℕ → Ran) → ℕ → Bool → State F → Option (Sample F × State F) × Bool
  record_sample env phone run now force st = complete phone now st (uid_part env run now force st)
