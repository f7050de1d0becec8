-- ===== src/BatteryUse/Sample/Dumps.antt =====
-- The times of the dumps.
use stayturgid.Base.{
  ℕ, ◌+◌, ◌≤◌, ◌<◌, ◌≡◌, refl, sym, inl, inr, ◌⊎◌, Bool, true, false, not, ◌||◌, Option, none, some,
  List, [], ◌∷◌, arith, All, IsSpaced, leb, Bool-cases, Option-cases, if◌then◌else◌, is_empty,
  strip, ◌≢◌,
}
use mathlib.Core.Path.{subst}
use stayturgid.BatteryUse.Tables.{Floats}
use stayturgid.BatteryUse.Schedule.{
  Env, State, uid_retry_sec, uid_interval_sec, dump_timeout_sec, uid_due, no_local_adb,
  uid_interval_sec-ge,
}
use stayturgid.BatteryUse.Report.{is_parsed, parse_batterystats}
use stayturgid.BatteryUse.Gauge.{Ran}
use stayturgid.BatteryUse.Sample.{
  Phone, Sample, UidPart, not_due, no_adb, complete, read_dump, uid_part, saved, record_sample,
  retry_at, use_dump, is_ok,
}

-- A sample that the boot loop asks for: what it reads, what the dump's command would leave, and when.
pub record Pass : Type 0 where
  pub phone : Phone
  pub run : ℕ → Ran
  pub now : ℕ

abbrev pub min : ℕ → ℕ → ℕ
min a b = if leb a b then a else b

-- The least time between two dumps.
abbrev pub dump_gap : Env → ℕ
dump_gap env = min (uid_interval_sec env) uid_retry_sec

module _ {F : Type 0} (fl : Floats F) where
  -- The state file after a sample, which an error before its end leaves as it was.
  abbrev pub after : Option (Sample F × State F) → State F → State F
  after none st = st
  after (some (sample, st')) st = st'

  -- The times of the samples that ran the dump's command.
  unfoldable pub dump_times : Env → List Pass → State F → List ℕ
  dump_times env [] st = []
  dump_times env (p ∷ ps) st =
      let (r, ran) = record_sample fl env p.phone p.run p.now false st in
      let rest = dump_times env ps (after r st) in if ran then p.now ∷ rest else rest

  -- The text of a dump has no number that `float` refuses.
  abbrev pub IsReadable : Pass → Type 0
  IsReadable p = (limit : ℕ) → parse_batterystats fl (p.run limit).text ≢ none

  -- The time of a dump that was run is the last one, or was set so that the retry time passes first.
  abbrev IsStamped : Env → ℕ → ℕ → Type 0
  IsStamped env now ts = (ts ≡ now) ⊎ (ts ≡ retry_at env now)

  data ReadCase (env : Env) (now : ℕ) : Option (UidPart F × State F) → Type 0 where
    stamped :
        {part : UidPart F} {st : State F}
        → IsStamped env now st.uid_ts
        → ReadCase env now (some (part, st))

  read_dump-ReadCase :
      (env : Env) (ran : Ran) (now : ℕ) (st : State F)
      → parse_batterystats fl ran.text ≢ none
      → ReadCase env now (read_dump fl env ran now st)
  unfolding read_dump use_dump
  read_dump-ReadCase env ran now st readable =
      elim (Bool-cases (not (is_ok ran.rc) || is_empty (strip ran.text))) [
        | inl bad ↦ rw bad (stamped (inr refl))
        | inr good ↦ elim (Option-cases (parse_batterystats fl ran.text)) [
          | inl broken ↦ absurd (readable broken)
          | inr (parsed, e) ↦ elim (Bool-cases (not (is_parsed fl parsed))) [
            | inl empty ↦ rw (good, e, empty) (stamped (inr refl))
            | inr full ↦ rw (good, e, full) (stamped (inl refl))
          ]
        ]
      ]

  ReadCase-result :
      {env : Env} {now : ℕ} {r : Option (UidPart F × State F)}
      → ReadCase env now r
      → (part : UidPart F) × (st : State F) × (r ≡ some (part, st)) × IsStamped env now st.uid_ts
  ReadCase-result (stamped {part = part} {st = st} h) = (part, st, refl, h)

  -- What a sample that nobody forced does: no dump is due, or the phone has no local adb, or a dump is
  -- run.
  data SampleCase (env : Env) (p : Pass) (st st' : State F) : Bool → Type 0 where
    idle : st'.uid_ts ≡ st.uid_ts → SampleCase env p st st' false
    skipped :
        uid_due st p.now false (uid_interval_sec env) ≡ true
        → st'.uid_ts ≡ p.now
        → SampleCase env p st st' false
    dumped :
        uid_due st p.now false (uid_interval_sec env) ≡ true
        → IsStamped env p.now st'.uid_ts
        → SampleCase env p st st' true

  abbrev result : Env → Pass → State F → Option (Sample F × State F) × Bool
  result env p st = record_sample fl env p.phone p.run p.now false st

  completed :
      (env : Env) (p : Pass) (st : State F) (part : UidPart F) (st' : State F) (b : Bool)
      → SampleCase env p st st' b
      → SampleCase env p st (after (complete fl p.phone p.now st (some (part, st'), b)).0 st) b
  unfolding complete saved
  completed env p st part st' b (idle h) = idle h
  completed env p st part st' b (skipped due h) = skipped due h
  completed env p st part st' b (dumped due h) = dumped due h

  -- What `uid_part` returns, of what a sample makes of it.
  sampled :
      (env : Env) (p : Pass) (st : State F) (part : UidPart F) (st' : State F) (b : Bool)
      → uid_part fl env p.run p.now false st ≡ (some (part, st'), b)
      → SampleCase env p st st' b
      → SampleCase env p st (after (result env p st).0 st) (result env p st).1
  unfolding record_sample complete saved
  sampled env p st part st' b e h =
      subst
        (λ u.
          SampleCase env p st (after (complete fl p.phone p.now st u).0 st)
            (complete fl p.phone p.now st u).1)
        (sym e) (completed env p st part st' b h)

  sample_case :
      (env : Env) (p : Pass) (st : State F)
      → IsReadable p
      → SampleCase env p st (after (result env p st).0 st) (result env p st).1
  unfolding uid_part
  sample_case env p st readable =
      elim (Bool-cases (uid_due st p.now false (uid_interval_sec env))) [
        | inr early ↦ sampled env p st not_due st false (rw early refl) (idle refl)
        | inl due ↦ elim (Bool-cases (no_local_adb env)) [
          | inl none_here ↦
              sampled env p st no_adb (record st { uid_ts = p.now }) false
                (rw (due, none_here) refl) (skipped due refl)
          | inr local ↦
              let limit = dump_timeout_sec env in
              let (part, st', e, held) =
                ReadCase-result (read_dump-ReadCase env (p.run limit) p.now st (readable limit)) in
              sampled env p st part st' true (rw (due, local, e) refl) (dumped due held)
        ]
      ]

  due_le :
      (env : Env) (st : State F) (now : ℕ)
      → 0 < st.uid_ts
      → uid_due st now false (uid_interval_sec env) ≡ true
      → st.uid_ts + uid_interval_sec env ≤ now
  unfolding uid_due
  due_le env st now set due = ground arith

  -- No dump is due before the time.
  abbrev NotBefore : Env → ℕ → State F → Type 0
  NotBefore env lo st = (0 < st.uid_ts) × (lo ≤ st.uid_ts + uid_interval_sec env)

  stamped-NotBefore :
      (env : Env) (now : ℕ) (st : State F)
      → uid_interval_sec env ≤ now
      → IsStamped env now st.uid_ts
      → NotBefore env (now + dump_gap env) st
  unfolding retry_at
  stamped-NotBefore env now st late (inl e) = ground (arith, uid_interval_sec-ge env)
  stamped-NotBefore env now st late (inr e) = ground arith

  NotBefore-le :
      (env : Env) (lo hi : ℕ) (st : State F) → lo ≤ hi → NotBefore env hi st → NotBefore env lo st
  NotBefore-le env lo hi st h k = (k.0, omega (arith, k.1))

  -- The passes whose dumps can be read and whose times are not before the interval.
  abbrev pub IsUsable : Env → Pass → Type 0
  IsUsable env p = IsReadable p × (uid_interval_sec env ≤ p.now)

  -- A sample's step: it runs no dump and no time limit is lost, or it runs one after the limit and sets
  -- the next.
  abbrev IsLimited : Env → ℕ → State F → State F → Bool → Type 0
  IsLimited env now st st' ran =
      ((ran ≡ false) × ((lo : ℕ) → NotBefore env lo st → NotBefore env lo st'))
      ⊎ ((ran ≡ true)
          × ((lo : ℕ) → NotBefore env lo st → lo ≤ now)
          × NotBefore env (now + dump_gap env) st')

  case-IsLimited :
      (env : Env) (p : Pass) (st st' : State F) (b : Bool)
      → uid_interval_sec env ≤ p.now
      → SampleCase env p st st' b
      → IsLimited env p.now st st' b
  case-IsLimited env p st st' b late (idle same) =
      inl (refl, λ lo k. subst (λ t. (0 < t) × (lo ≤ t + uid_interval_sec env)) (sym same) k)
  case-IsLimited env p st st' b late (skipped due e) =
      inl (refl, λ lo k. ground (arith, uid_interval_sec-ge env, due_le env st p.now k.0 due))
  case-IsLimited env p st st' b late (dumped due e) = inr (
    refl,
    λ lo k. ground (arith, due_le env st p.now k.0 due),
    stamped-NotBefore env p.now st' late e,
  )

  step-IsLimited :
      (env : Env) (p : Pass) (st : State F)
      → IsUsable env p
      → IsLimited env p.now st (after (result env p st).0 st) (result env p st).1
  step-IsLimited env p st h =
      case-IsLimited env p st (after (result env p st).0 st) (result env p st).1 h.1
        (sample_case env p st h.0)

  dump_times_after :
      (env : Env) (lo : ℕ) (ps : List Pass) (st : State F)
      → All (IsUsable env) ps
      → NotBefore env lo st
      → All (λ t. lo ≤ t) (dump_times env ps st)
  unfolding dump_times
  dump_times_after env lo [] st h k = tt
  dump_times_after env lo (p ∷ ps) st h k = elim (step-IsLimited env p st h.0) [
    | inl (quiet, keeps) ↦
        rw quiet (dump_times_after env lo ps (after (result env p st).0 st) h.1 (keeps lo k))
    | inr (ran, late, next) ↦ rw ran (
      late lo k,
      dump_times_after env lo ps (after (result env p st).0 st) h.1 (
          NotBefore-le env lo (p.now + dump_gap env) (after (result env p st).0 st)
            (omega (arith, late lo k)) next),
    )
  ]

  -- Between two dumps that nobody forces there is the interval, or the retry time where that is shorter,
  -- if the times are not before the interval and no dump has a number that `float` refuses.
  pub dump_times-IsSpaced :
      (env : Env) (ps : List Pass) (st : State F)
      → All (IsUsable env) ps
      → IsSpaced (dump_gap env) (dump_times env ps st)
  unfolding dump_times
  dump_times-IsSpaced env [] st h = tt
  dump_times-IsSpaced env (p ∷ ps) st h = elim (step-IsLimited env p st h.0) [
    | inl (quiet, keeps) ↦ rw quiet (dump_times-IsSpaced env ps (after (result env p st).0 st) h.1)
    | inr (ran, late, next) ↦ rw ran (
      dump_times_after env (p.now + dump_gap env) ps (after (result env p st).0 st) h.1 next,
      dump_times-IsSpaced env ps (after (result env p st).0 st) h.1,
    )
  ]
