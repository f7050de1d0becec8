-- ===== src/Lib.antt =====
-- A model of the parts of the fleet tools that decide: who may control a device's screen and when input
-- reaches it, when a battery warning is due, what the monitor of the fleet does about an unhealthy
-- phone, which generated files of a site are written, that one deploy runs at a time, and what the
-- phone's own loop does: its samples of battery use, its repairs and its waits.
--
-- - Lease: the cooperative screen-control lease, control/lib/device_screen_lease.py. Each device has
--   files in a shared directory, one for every alias, and processes of several projects acquire,
--   refresh and release them. Key: `device_key`, `lease_path`. Env: what is read of the environment.
--   Store: the documents, the directory, `is_active`, `list_leases`, `find_active_lease`, `ours`.
--   Write: `build_lease`, `_write_lease_all_keys`. Acquire: `acquire`, `heartbeat`. Release: `release`.
-- - BatteryWatch: the hub's watch, control/lib/battery_watch.py. Status: `on_charger` and the fields
--   that it reads. Evaluate: `evaluate`. RollCall: `rollcall`. Run: `run`.
-- - BatteryAlarm: the phone's alarm, device/termux/py/stayturgid_battery_alarm.py. Clock: the quiet
--   hours. Battery: `on_power`, `drain_per_hour`, `write_status`. Sound: the state files, `start_sound`,
--   `stop_sound`, quiet mode and the commands. Evening: `evening_check`. Pass: `main` without a
--   command. Player: `sound_loop`, the process that `start_sound` spawns.
-- - FleetHealth: control/lib/fleet_health.py. Report: `parse_kv`, `extract_devlog_lines`, `_int_age`,
--   `_normalize_status_fields`. Evaluate: `evaluate_health` and the Tasker tests.
-- - FleetMonitor: control/bin/fleet_health_monitor.py. Stamps: what is remembered of a phone. Heal:
--   the three heals. Fallback: the heals of a phone that is not reached. Hints: `log_issue_hints`.
--   Tasker: the self-test and the nags. Devlog: `_report_device_log_failures`. Check: `check_device`.
-- - ScreenControl: a session on a device's screen, control/lib/screen_control.py. Device: the device
--   behind adb, `guarded_adb_shell`, `set_inversion`, the keyboard. Session: `ScreenControlSession`.
-- - DeployLock: `fleet_lock` of control/lib/fleet_deploy_lock.py. Lock: its steps, over a `flock` that
--   is a parameter.
-- - SiteSync: the generated files of a site overlay, control/site_contract/site_sync.py. Site: paths,
--   errors, the file tree. Manifest: `load_manifest`. Lock: the lockfile. Plan: `build_plan`. Apply:
--   `apply_plan`. Run: `run_site_sync`, and `apply_projection` of
--   control/site_contract/olivetin_projection.py.
-- - BatteryUse: the phone's log of what uses its battery, device/termux/py/stayturgid_battery_use.py.
--   Schedule: the intervals, `fork_due`, `_uid_due`, `no_local_adb`. Procs: `select_procs`,
--   `proc_delta`. Stat: `scan_procs` and its parsers. Fields, Tables, Checkin: `parse_checkin` line by
--   line. Prose: `parse_human`. Report: `parse_batterystats`. Rows: `_tracked_rows`, `_tracked_mah`.
--   Gauge: `_read_gauge`, `default_runner`. Sample: `record`.
-- - BootLoop: the phone's supervisor, device/termux/py/start_adb.py. Single: the starts of the loop,
--   step by step.
--   Forks: `_run_battery_use`. Reauth: `_repair_on_reauth`, `_sleep_watching_adb_auth`. Adb:
--   `_shell_transport`. Logs: `_rotate_logs`.
-- - Repair: device/termux/py/stayturgid_repair.py. Errors: `maybe_notify_error_rate`. Profiles:
--   `ensure_shell_profile_path`. Tailscale: `ensure_tailscale`.
-- - Base: texts, dictionaries, lists and tests that all of them share.
--
-- The alarm writes the status that the watch reads, so BatteryWatch.Status stands below both; the
-- monitor evaluates the reports of FleetHealth; a screen session takes and gives back a lease; the boot
-- loop forks the sampler of BatteryUse over the state file that both read. An
-- operation takes the state and gives the new state with what it does, in order: the files of a
-- directory, the state files of a phone, the messages. Texts are lists of ASCII code points.
--
-- Bounds. Numbers are natural; a difference of times is written as a sum where it matters. Lease times
-- are whole milliseconds, all others whole seconds but for the player's milliseconds. Waiting is
-- recursion on the list of what a process finds each time that it looks, so there is no fuel: a theorem
-- on the end of `acquire` or of the player says how many looks are enough. A drain is kept as percent
-- over seconds in place of a float.
--
-- The sleep of the boot loop runs on fuel; more fuel than its seconds is enough. Its two clocks are one.
-- Where the sampler sets its next dump before the beginning of the clock, the model has 0; a dump is due
-- at once after either.
--
-- The sampler reads Python's `int` on ASCII text as whole numbers of both signs. Its floats are a record
-- of operations of which the theorems ask nothing; `bytes.decode` is an argument. The key `pid:start` of
-- its process table is a pair.
--
-- The site of a sync is a dict from relative paths as they are spelled to files, so two spellings of
-- one file are not told to be one. Hashing, YAML, JSON and the template engine are fields of a record
-- that the theorems leave open; the example files instantiate it. The live OliveTin config stands
-- outside the site: what its projection gives for a plan is an argument, and its write changes a state
-- of its own.
--
-- A start of the boot loop looks for a running one, forks and writes the pid down in three steps, and
-- any number of starts may be under way, since the source has no lock that would keep them apart. That
-- they do not overlap is a hypothesis on a run where it is needed.
--
-- Every command of a screen session that reaches the device is logged with its arguments and with the
-- state of the display, whatever the guard makes of it. adb and ssh answer a session from lists of answers, which may say what is not so; what adb
-- answers after the last one is a failure.
--
-- Not modelled: JSON text and dates as text, the file locks of leases (a locked section is one step)
-- and the moments at which their processes may be killed, ssh, adb, Termux and ntfy (their outcomes
-- are arguments, their calls are effects), the text of messages, and what happens on the screen during
-- an effect; of the phone's loop the other external programs of a pass, FIRERPA, CFEngine and otelcol,
-- and of its repairs Shizuku, packages and the state file; discovery, the server applications, the
-- dashboard and the Ansible modules, which are glue around external programs.
pub mod Base
pub mod Lease
pub mod BatteryWatch
pub mod BatteryAlarm
pub mod FleetHealth
pub mod FleetMonitor
pub mod SiteSync
pub mod ScreenControl
pub mod DeployLock
pub mod BatteryUse
pub mod BootLoop
pub mod Repair
