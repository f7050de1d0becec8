-- ===== src/BatteryUse/Examples.antt =====
-- Runs of the battery use log on one phone.
use stayturgid.Base.{
  ℕ, ◌≡◌, refl, true, false, not, none, some, List, [], ◌∷◌, arith, IsSpaced, Text, codes, take, ℤ,
  pos, ◌+ℤ◌, negℤ, lebℤ, int_of, signed, decimal,
}
use stayturgid.BatteryUse.Fields.{split_commas, Wakelock, parse_wl}
use stayturgid.BatteryUse.Fields.Names.{named, wl_tail, parse_wl-named}
use stayturgid.BatteryUse.Procs.{Proc, select_procs}
use stayturgid.BatteryUse.Procs.Selection.{IsSelection, select_procs-IsSelection}
use stayturgid.BatteryUse.Stat.{words_from, stat_fields, parse_proc_stat, text_comm}
use stayturgid.BatteryUse.Stat.Names.{stat_line, parse_proc_stat-stat_line}
use stayturgid.BatteryUse.Tables.{Floats}
use stayturgid.BatteryUse.Schedule.{Env, no_state, interval, uid_interval_sec}
use stayturgid.BatteryUse.Report.{occurs, parse_batterystats}
use stayturgid.BatteryUse.Rows.{Row, package_row, differences}
use stayturgid.BatteryUse.Gauge.{Ran}
use stayturgid.BatteryUse.Sample.{Phone, record_sample}
use stayturgid.BatteryUse.Sample.Dumps.{Pass, dump_gap, dump_times, dump_times-IsSpaced}
use stayturgid.BatteryUse.Sample.Baselines.{
  Holds, Follows, cpu_since, record_sample-Follows, record_sample-record_sample,
}

-- Whole numbers in place of floats.
abbrev pub wholes : Floats ℤ
wholes = record {
  read = int_of;
  of_int = λ n. n;
  plus = λ m n. m +ℤ n;
  minus = λ m n. m +ℤ negℤ n;
  went_back = λ new old. not (lebℤ old new);
}

abbrev sync_lock : Wakelock
sync_lock = record {
  name = codes "*sync*/mail,u0";
  full_ms = pos 0;
  full_n = pos 0;
  partial_ms = pos 512;
  partial_n = pos 3;
  window_ms = pos 0;
  window_n = pos 0;
}

parse_wl-named_example :
    parse_wl (
      split_commas (
        named
          (codes "*sync*/mail,u0")
          (wl_tail (codes "0") (codes "0") (codes "512") (codes "3") (codes "0") (codes "0"))))
    ≡ some sync_lock
unfolding split_commas int_of signed decimal
parse_wl-named_example =
    parse_wl-named (codes "*sync*/mail,u0") (codes "0") (codes "0") (codes "512") (codes "3")
      (codes "0") (codes "0") sync_lock refl (refl, refl) (refl, refl) (refl, refl) (refl, refl)
      (refl, refl) (refl, refl)

abbrev procs : List Proc
procs =
    record { pid = 100; start = pos 7; cpu_ticks = pos 40; cmd = codes "sshd" }
    ∷ record { pid = 101; start = pos 8; cpu_ticks = pos 5; cmd = codes "/usr/bin/cf-execd -F" }
    ∷ []

select_procs-IsSelection_example : IsSelection procs (select_procs procs)
select_procs-IsSelection_example = select_procs-IsSelection procs

abbrev pub env : Env
env = record {
  proc_sec = none;
  uid_sec = none;
  dump_timeout = some (codes "20");
  no_adb = none;
  env_file = none;
}

abbrev pub phone : ℤ → Phone
phone ticks = record {
  boot_id = codes "b1";
  procs = record { pid = 100; start = pos 7; cpu_ticks = ticks; cmd = codes "sshd" } ∷ [];
  status = none;
}

abbrev pub dump : ℕ → Ran
dump limit = record {
  rc = some (pos 0);
  text = codes "9,0,i,vers,36,216,A,B";
  err = [];
  truncated = false;
}

record_sample-Follows_example :
    Holds wholes
      (Follows wholes (phone (pos 40)) 100000 (no_state ℤ))
      (record_sample wholes env (phone (pos 40)) dump 100000 false (no_state ℤ)).0
record_sample-Follows_example =
    record_sample-Follows wholes env (phone (pos 40)) dump 100000 false (no_state ℤ)

record_sample-record_sample_example :
    Holds wholes
      (λ first st'.
        Holds wholes
          (λ second st''. second.d_cpu_ticks ≡ cpu_since wholes (phone (pos 40)) (phone (pos 55)))
          (record_sample wholes env (phone (pos 55)) dump 102000 false st').0)
      (record_sample wholes env (phone (pos 40)) dump 100000 false (no_state ℤ)).0
record_sample-record_sample_example =
    record_sample-record_sample wholes env (phone (pos 40)) (phone (pos 55)) dump dump 100000 102000
      false false (no_state ℤ) refl

abbrev passes : List Pass
passes =
    record { phone = phone (pos 40); run = dump; now = 100000 }
    ∷ record { phone = phone (pos 55); run = dump; now = 102000 }
    ∷ []

dump_times-IsSpaced_example : IsSpaced (dump_gap env) (dump_times wholes env passes (no_state ℤ))
unfolding parse_batterystats occurs uid_interval_sec interval
dump_times-IsSpaced_example =
    dump_times-IsSpaced wholes env passes (no_state ℤ)
      ((λ limit h. cc h, omega arith), ((λ limit h. cc h, omega arith), tt))

abbrev termux_row : Text → Row ℤ
termux_row pkg = package_row (record {
  pkg = pkg;
  uid = pos 10123;
  mah = some (pos 12);
  mah_is_sum = false;
  mah_parts = [];
  cpu_user_ms = pos 0;
  cpu_system_ms = pos 0;
  wakelock_partial_ms = pos 0;
  wakelock_full_ms = pos 0;
  wakelocks = [];
  wakelocks_omitted = 0;
  net = none;
  jobs = [];
  procs = [];
  shared_uid = true;
  change = differences [];
})

abbrev fields : Text
fields = codes " S 1"

parse_proc_stat-stat_line_example :
    (parse_proc_stat (stat_line (codes "100 ") (codes "a) (b") fields)
      ≡ stat_fields (words_from [] fields))
    × (text_comm (stat_line (codes "100 ") (codes "a) (b") fields) ≡ take 180 (codes "a) (b"))
parse_proc_stat-stat_line_example =
    parse_proc_stat-stat_line (codes "100 ") (codes "a) (b") fields
      (refl, (refl, (refl, (refl, tt)))) (refl, (refl, (refl, (refl, tt))))
