-- ===== src/BootLoop/Examples.antt =====
-- Runs of the boot loop.
use stayturgid.Base.{
  ℕ, zero, suc, ◌+◌, ◌≤◌, ◌≡◌, refl, ◌⊎◌, true, false, none, some, List, [], ◌∷◌, arith, IsSpaced,
  All, codes, length, get, assign, discard, ℤ, pos, int_of, signed, decimal,
}
use stayturgid.BatteryUse.Schedule.{no_state, proc_interval_sec}
use stayturgid.BatteryUse.Examples.{wholes, env, phone, dump}
use stayturgid.BootLoop.Forks.{LoopPass, fork_times, fork_times-IsSpaced}
use stayturgid.BootLoop.Reauth.{Stamp, Moment, Slept, sleep_watching, reauth_min_gap_sec}
use stayturgid.BootLoop.Reauth.Bounded.{sleep_watching_ends}
use stayturgid.BootLoop.Adb.{
  Look, down, waiting, unreachable, localhost_adb_state, Rish, shell_transport,
}
use stayturgid.BootLoop.Adb.Waiting.{IsSearch, shell_transport-IsSearch}
use stayturgid.BootLoop.Logs.{
  file, Directory, is_rotated, log_limit, rename, rotate_file, rotate_files, rotate_logs,
}
use stayturgid.BootLoop.Logs.Rotated.{
  Kept, only_files-IsClear, rotate_logs-length, rotate_logs-Kept,
}
use stayturgid.BootLoop.Single.{
  Device, process, running_bootloop_pid, forked, look, fork, write_pid, System, Steps, here, there,
  looks, forks, writes, done, step,
}
use stayturgid.BatteryUse.Report.{occurs}
use stayturgid.BootLoop.Single.Sole.{loops, sole_loop}

-- The first sampler is killed, the second one ends.
abbrev passes : List LoopPass
passes =
    record { now = 100000; installed = true; child = none }
    ∷ record { now = 100300; installed = true; child = none }
    ∷ record {
      now = 101900;
      installed = true;
      child = some (record { phone = phone (pos 40); run = dump; now = 101901 });
    }
    ∷ []

fork_times-IsSpaced_example :
    IsSpaced (proc_interval_sec env) (fork_times wholes env passes (no_state ℤ))
fork_times-IsSpaced_example =
    fork_times-IsSpaced wholes env passes (no_state ℤ)
      ((omega arith, tt), ((omega arith, tt), ((omega arith, omega arith), tt)))

-- A dialog has been accepted all the time.
abbrev accepted : ℕ → Moment
accepted t = record {
  marker = some (codes "100000 waiting");
  adb = record { listed = true; connected = true; writable = true };
  took = 40;
}

abbrev no_stamp : Stamp
no_stamp = record { last = 0; consumed = [] }

sleep_watching_ends_example :
    (s : Slept) × (sleep_watching 301 accepted 300 100000 no_stamp ≡ some s)
    × (100000 + 300 ≤ s.ended)
    × (s.ended ≤ 100000 + 300 + 40)
    × IsSpaced reauth_min_gap_sec s.repairs
    × All (λ t. 0 + reauth_min_gap_sec ≤ t) s.repairs
sleep_watching_ends_example =
    sleep_watching_ends 40 301 300 100000 accepted no_stamp (λ t. omega arith) (omega arith)
      (omega arith)

-- adbd is down, and a dialog is up after its restart.
abbrev found_looks : ℕ → Look
found_looks zero = record { connect = down; id_rc = pos 0; id_out = [] }
found_looks (suc i) = record { connect = waiting; id_rc = pos 0; id_out = [] }

abbrev rish : Rish
rish = record { executable = true; id_rc = pos 0; id_out = codes "2000"; restart_rc = pos 0 }

shell_transport-IsSearch_example :
    IsSearch found_looks 0 9 (shell_transport found_looks rish)
    × (((shell_transport found_looks rish).restarted ≡ false)
        ⊎ (localhost_adb_state (found_looks 0) ≡ unreachable))
shell_transport-IsSearch_example = shell_transport-IsSearch found_looks rish

abbrev logs : Directory
logs =
    (codes "a.log", file (1 ∷ 2 ∷ []))
    ∷ (codes "b.log", file (1 ∷ 2 ∷ 3 ∷ 4 ∷ []))
    ∷ (codes "b.log.1", file (9 ∷ []))
    ∷ []

rotate_logs-length_example : length {A = ℕ} (1 ∷ 2 ∷ []) ≤ 3
unfolding rotate_logs rotate_files rotate_file is_rotated log_limit rename get assign discard int_of
    signed decimal
rotate_logs-length_example =
    rotate_logs-length (some (codes "3")) (λ name. false) logs 3 (codes "a.log") (1 ∷ 2 ∷ []) refl
      refl refl (only_files-IsClear logs ((_, refl), ((_, refl), ((_, refl), tt)))) refl

rotate_logs-Kept_example :
    Kept
      (codes "b.log")
      (1 ∷ 2 ∷ 3 ∷ 4 ∷ [])
      (rotate_logs (some (codes "3")) (λ name. false) false logs)
unfolding is_rotated get
rotate_logs-Kept_example =
    rotate_logs-Kept (some (codes "3")) (λ name. false) false logs (codes "b.log")
      (1 ∷ 2 ∷ 3 ∷ 4 ∷ []) refl refl

-- The pid file is stale, and two starts follow.
abbrev rebooted : Device
rebooted = record { pid_file = 7; table = [] }

abbrev at_rest : Device → System
at_rest d = record { device = d; starts = [] }

-- The second start finds the loop of the first.
sole_loop_example : loops (write_pid 5 (fork 5 rebooted)).table ≤ 1
unfolding process look running_bootloop_pid fork write_pid occurs
sole_loop_example =
    sole_loop {s = at_rest rebooted}
      (step looks (
        step (forks {pid = 5} here (omega arith) refl)
          (step (writes {pid = 5} here) (step looks done))))
      (refl, (tt, (tt, (refl, tt)))) refl tt refl

-- Two starts that overlap both see no loop, and two loops run.
overlapping : (t : System) × Steps (at_rest rebooted) t × (loops t.device.table ≡ 2)
unfolding process look running_bootloop_pid fork occurs
overlapping = (
  record { device = fork 6 (fork 5 rebooted); starts = forked 6 ∷ forked 5 ∷ [] },
  step looks (
      step looks (
        step (forks {pid = 5} (there here) (omega arith) refl)
          (step (forks {pid = 6} here (omega arith) refl) done))),
  refl,
)
