-- ===== src/BatteryUse/Sample/Baselines.antt =====
-- What a sample leaves for the next one to compare with.
use stayturgid.Base.{
  ℕ, ◌≡◌, refl, ap, ℤ, inl, inr, Bool, true, false, not, ◌||◌, ◌&&◌, Option, none, some, [], arith,
  Bool-cases, Option-cases, is_empty, strip, text_eq, text_eq_iff, text_eq_refl, if◌then◌else◌,
}
use stayturgid.BatteryUse.Procs.Increases.{gains, gains_empty, total_of, proc_delta_lem}
use stayturgid.BatteryUse.Tables.{Floats, IntDict}
use stayturgid.BatteryUse.Schedule.{
  Env, Counters, State, uid_interval_sec, dump_timeout_sec, uid_due, no_local_adb,
}
use stayturgid.BatteryUse.Report.{Parsed, checkin, human, is_parsed, parse_batterystats}
use stayturgid.BatteryUse.Rows.{tracked_rows}
use stayturgid.BatteryUse.Gauge.{Ran}
use stayturgid.BatteryUse.Sample.{
  Phone, Sample, UidPart, not_due, no_adb, uid_error, uid_rows, is_ok, next_uids, use_dump,
  read_dump, uid_part, saved, complete, record_sample, table_of, previous_procs,
}

module _ {F : Type 0} (fl : Floats F) where
  -- Only a whole checkin changes the baselines: they are then its own, and its rows compare it with the
  -- former ones. A truncated one compares too, and leaves them.
  abbrev pub Baselines : UidPart F → IntDict (Counters F) → IntDict (Counters F) → Type 0
  Baselines not_due old new = new ≡ old
  Baselines no_adb old new = new ≡ old
  Baselines (uid_error e) old new = new ≡ old
  Baselines (uid_rows parsed rows total true) old new =
      (rows ≡ (tracked_rows fl parsed old).0) × (new ≡ old)
  Baselines (uid_rows (human p) rows total false) old new =
      (rows ≡ (tracked_rows fl (human p) old).0) × (new ≡ old)
  Baselines (uid_rows (checkin t) rows total false) old new =
      (rows ≡ (tracked_rows fl (checkin t) old).0) × (new ≡ (tracked_rows fl (checkin t) old).1)

  use_dump-Baselines :
      (parsed : Parsed F) (truncated : Bool) (now : ℕ) (st : State F)
      → Baselines
          (use_dump fl parsed truncated now st).0
          st.uids
          (use_dump fl parsed truncated now st).1.uids
  unfolding use_dump next_uids tracked_rows
  use_dump-Baselines parsed true now st = (refl, refl)
  use_dump-Baselines (checkin t) false now st = (refl, refl)
  use_dump-Baselines (human p) false now st = (refl, refl)

  -- It holds of the parts and the state, if there are any.
  abbrev pub Holds : {A : Type 0} → (A → State F → Type 0) → Option (A × State F) → Type 0
  Holds P none = Unit
  Holds P (some (a, st)) = P a st

  read_dump-Baselines :
      (env : Env) (ran : Ran) (now : ℕ) (st : State F)
      → Holds (λ part st'. Baselines part st.uids st'.uids) (read_dump fl env ran now st)
  unfolding read_dump
  read_dump-Baselines env ran now st =
      elim (Bool-cases (not (is_ok ran.rc) || is_empty (strip ran.text))) [
        | inl bad ↦ rw bad refl
        | inr good ↦ elim (Option-cases (parse_batterystats fl ran.text)) [
          | inl broken ↦ rw (good, broken) tt
          | inr (parsed, e) ↦ elim (Bool-cases (not (is_parsed fl parsed))) [
            | inl empty ↦ rw (good, e, empty) refl
            | inr full ↦ rw (good, e, full) (use_dump-Baselines parsed ran.truncated now st)
          ]
        ]
      ]

  skip_uids :
      (force : Bool) (now : ℕ) (st : State F)
      → (if force then st else record st { uid_ts = now }).uids ≡ st.uids
  skip_uids true now st = refl
  skip_uids false now st = refl

  uid_part-Baselines :
      (env : Env) (run : ℕ → Ran) (now : ℕ) (force : Bool) (st : State F)
      → Holds (λ part st'. Baselines part st.uids st'.uids) (uid_part fl env run now force st).0
  unfolding uid_part
  uid_part-Baselines env run now force st =
      elim (Bool-cases (uid_due st now force (uid_interval_sec env))) [
        | inr early ↦ rw early refl
        | inl due ↦ elim (Bool-cases (no_local_adb env)) [
          | inl none_here ↦ rw (due, none_here) (skip_uids force now st)
          | inr local ↦
              rw (due, local) (read_dump-Baselines env (run (dump_timeout_sec env)) now st)
        ]
      ]

  -- What the sample and the saved state have to do with the state before.
  abbrev pub Follows : Phone → ℕ → State F → Sample F → State F → Type 0
  Follows phone now st sample st' =
      Baselines sample.uid_part st.uids st'.uids
      × (st'.procs ≡ table_of phone.procs)
      × (st'.boot_id ≡ phone.boot_id)
      × (st'.proc_ts ≡ now)

  complete-Follows :
      (phone : Phone) (now : ℕ) (st : State F) (u : Option (UidPart F × State F) × Bool)
      → Holds (λ part st'. Baselines part st.uids st'.uids) u.0
      → Holds (Follows phone now st) (complete fl phone now st u).0
  unfolding complete saved
  complete-Follows phone now st (none, ran) h = tt
  complete-Follows phone now st (some (part, st'), ran) h = (h, refl, refl, refl)

  -- A sample saves what the next one compares with: its processes under its boot id, and the counters of
  -- a whole checkin. A truncated, failed or skipped dump leaves the counters of the one before.
  pub record_sample-Follows :
      (env : Env) (phone : Phone) (run : ℕ → Ran) (now : ℕ) (force : Bool) (st : State F)
      → Holds (Follows phone now st) (record_sample fl env phone run now force st).0
  unfolding record_sample
  record_sample-Follows env phone run now force st =
      complete-Follows phone now st (uid_part fl env run now force st)
        (uid_part-Baselines env run now force st)

  -- The processor time between two samples, in ticks: none if the second one has no boot id or another
  -- than the first, and otherwise what the processes of both have added.
  abbrev pub cpu_change : Phone → Phone → Option ℤ
  cpu_change p q =
      if is_empty q.boot_id || not (is_empty p.boot_id) && not (text_eq q.boot_id p.boot_id)
      then none
      else total_of (gains (table_of p.procs) q.procs)

  complete-cpu :
      (p q : Phone) (now : ℕ) (st : State F) (u : Option (UidPart F × State F) × Bool)
      → st.procs ≡ table_of p.procs
      → st.boot_id ≡ p.boot_id
      → Holds (λ sample st'. sample.d_cpu_ticks ≡ cpu_change p q) (complete fl q now st u).0
  unfolding complete previous_procs
  complete-cpu p q now st (none, ran) e f = tt
  complete-cpu p q now st (some (part, st'), ran) e f =
      elim (Bool-cases
        (is_empty q.boot_id || not (is_empty p.boot_id) && not (text_eq q.boot_id p.boot_id))) [
          | inl other ↦
              rw (f, other) (rw (proc_delta_lem [] q.procs).0 (ap total_of (gains_empty q.procs)))
          | inr same ↦ rw (e, f, same) (proc_delta_lem (table_of p.procs) q.procs).0
        ]

  record_sample-cpu :
      (p q : Phone) (env : Env) (run : ℕ → Ran) (now : ℕ) (force : Bool) (st : State F)
      → st.procs ≡ table_of p.procs
      → st.boot_id ≡ p.boot_id
      → Holds
          (λ sample st'. sample.d_cpu_ticks ≡ cpu_change p q)
          (record_sample fl env q run now force st).0
  unfolding record_sample
  record_sample-cpu p q env run now force st e f =
      complete-cpu p q now st (uid_part fl env run now force st) e f

  Holds-imp :
      {A : Type 0} (P Q : A → State F → Type 0) (r : Option (A × State F))
      → ((a : A) (st : State F) → P a st → Q a st)
      → Holds P r
      → Holds Q r
  Holds-imp P Q none f h = tt
  Holds-imp P Q (some (a, st)) f h = f a st h

  -- What the second of two phones has added to the first, in ticks, if it was not started anew since.
  abbrev pub cpu_since : Phone → Phone → Option ℤ
  cpu_since p q =
      if text_eq q.boot_id p.boot_id then total_of (gains (table_of p.procs) q.procs) else none

  cpu_change-cpu_since : (p q : Phone) → is_empty p.boot_id ≡ false → cpu_change p q ≡ cpu_since p q
  cpu_change-cpu_since p q known = elim (Bool-cases (text_eq q.boot_id p.boot_id)) [
    | inl same ↦ rw ((text_eq_iff q.boot_id p.boot_id).0 same, known, text_eq_refl p.boot_id) refl
    | inr other ↦ rw (known, other) (ground arith)
  ]

  -- Of two samples, the first under a boot id that is not empty, the second one says what its processes
  -- have added since the first if it has the same boot id, and says nothing if it has another one or
  -- none, as after a reboot.
  pub record_sample-record_sample :
      (env : Env) (p q : Phone) (run run' : ℕ → Ran) (t u : ℕ) (force force' : Bool) (st : State F)
      → is_empty p.boot_id ≡ false
      → Holds
          (λ first st'.
            Holds
              (λ second st''. second.d_cpu_ticks ≡ cpu_since p q)
              (record_sample fl env q run' u force' st').0)
          (record_sample fl env p run t force st).0
  record_sample-record_sample env p q run run' t u force force' st known =
      Holds-imp (Follows p t st)
        (λ first st'.
          Holds (λ second st''. second.d_cpu_ticks ≡ cpu_since p q)
            (record_sample fl env q run' u force' st').0)
        (record_sample fl env p run t force st).0
        (λ first st' h.
          rw (← cpu_change-cpu_since p q known)
            (record_sample-cpu p q env run' u force' st' h.1 h.2))
        (record_sample-Follows env p run t force st)
