-- ===== src/DeployLock/Exclusive.antt =====
-- At most one deploy runs.
use stayturgid.Base.{
  ℕ, ◌≡◌, ◌≢◌, refl, sym, ap, ◌∙◌, Bool, true, false, ◌||◌, not, Option, none, some, Text, arith,
  ◌==◌, ==_iff, Bool-cases, Option-cases, inl, inr,
}
use stayturgid.DeployLock.Lock.{
  Flock, IsFlock, Holder, Phase, away, locked, inside, leaving, held_up, State, set_phase, Event,
  try, write, leave, close, die, try_phase, write_phase, leave_phase, close_file, close_phase, step,
  start,
}

abbrev pub busy : Phase → Bool
busy locked = true
busy inside = true
busy other = false

abbrev pub is_inside : Phase → Bool
is_inside inside = true
is_inside other = false

abbrev pub is_owner : ℕ → Option ℕ → Bool
is_owner p none = false
is_owner p (some q) = q == p

abbrev pub names : ℕ → Option Holder → Bool
names p none = false
names p (some h) = h.pid == p

-- The lock is held by the process that is past `flock` and not yet past `LOCK_UN`, and the note is
-- that of the process in the body.
pub record IsOrderly (f : Flock) (s : State f) : Type 0 where
  pub owns : (p : ℕ) → is_owner p (f.holder s.locks) ≡ busy (s.phases p)
  pub noted : (p : ℕ) → (not (is_inside (s.phases p)) || names p s.note) ≡ true

-- What is reached from the start.
pub data Reached (f : Flock) : State f → Type 0 where
  begun : Reached f (start f)
  after : (e : Event) {s : State f} → Reached f s → Reached f (step f e s)

owner-eq : (p : ℕ) (o : Option ℕ) → is_owner p o ≡ true → o ≡ some p
owner-eq p none h = cc
owner-eq p (some q) h = ap some ((==_iff q p).0 h)

not_owner : (p : ℕ) (o : Option ℕ) → is_owner p o ≡ false → o ≢ some p
not_owner p o h e = cc (rw e at h, (==_iff p p).1 refl)

apart_of : (r p : ℕ) → (r == p) ≡ false → r ≢ p
apart_of r p h e = cc (h, (==_iff r p).1 e)

outside : (x : Phase) (b : Bool) → busy x ≡ false → (not (is_inside x) || b) ≡ true
outside away b h = refl
outside locked b h = cc
outside inside b h = cc
outside leaving b h = refl
outside (held_up n) b h = refl

module _ (f : Flock) (law : IsFlock f) where
  -- A process that unlocks and leaves the locked section.
  released :
      (p : ℕ) (x : Phase) (k : f.Locks) (phases : ℕ → Phase)
      → busy x ≡ false
      → ((q : ℕ) → is_owner q (f.holder k) ≡ busy (phases q))
      → (q : ℕ) → is_owner q (f.holder (f.unlock p k)) ≡ busy (set_phase p x phases q)
  released p x k phases idle owns q = elim (Bool-cases (is_owner p (f.holder k))) [
    | inl mine ↦
        let e = owner-eq p (f.holder k) mine in
        let now = law.releases p k e in
        let others : is_owner q (some p) ≡ busy (phases q) = rw e at (owns q) in
        rw now (ground arith)
    | inr other ↦
        let same = law.keeps p k (not_owner p (f.holder k) other) in
        elim (Bool-cases (p == q)) [
          | inl self ↦
              let e : p ≡ q = (==_iff p q).0 self in
              rw (same, self) (ap (λ r. is_owner r (f.holder k)) (sym e) ∙ other ∙ sym idle)
          | inr apart ↦ rw (same, apart) (owns q)
        ]
  ]

  -- A process that gets the lock.
  taken :
      (p : ℕ) (o : Option ℕ) (phases : ℕ → Phase)
      → o ≡ some p
      → ((q : ℕ) → busy (phases q) ≡ false)
      → (q : ℕ) → is_owner q o ≡ busy (set_phase p locked phases q)
  taken p o phases e idle q = let others = idle q in rw e (ground arith)

  -- The note is left as it is where nobody comes to the body.
  still_noted :
      (p : ℕ) (x : Phase) (phases : ℕ → Phase) (text : Option Holder)
      → is_inside x ≡ false
      → ((q : ℕ) → (not (is_inside (phases q)) || names q text) ≡ true)
      → (q : ℕ) → (not (is_inside (set_phase p x phases q)) || names q text) ≡ true
  still_noted p x phases text out noted q = elim (Bool-cases (p == q)) [
    | inl self ↦ rw (self, out) refl
    | inr apart ↦ rw apart (noted q)
  ]

  close_file-IsOrderly : (p : ℕ) (s : State f) → IsOrderly f s → IsOrderly f (close_file f p s)
  close_file-IsOrderly p s h = record {
    owns = released p away s.locks s.phases refl h.owns;
    noted = still_noted p away s.phases s.note refl h.noted;
  }

  try_phase-IsOrderly :
      (p : ℕ) (x : Phase) (s : State f)
      → s.phases p ≡ x
      → IsOrderly f s
      → IsOrderly f (try_phase f p x s)
  unfolding try_phase
  try_phase-IsOrderly p locked s e h = h
  try_phase-IsOrderly p inside s e h = h
  try_phase-IsOrderly p leaving s e h = h
  try_phase-IsOrderly p (held_up n) s e h = h
  try_phase-IsOrderly p away s e h = elim (Option-cases (f.holder s.locks)) [
    | inl free ↦
        let (got, now) = law.takes p s.locks free in
        rw got (record {
          owns =
              taken p (f.holder (f.try_lock p s.locks).1) s.phases now
                (λ q. sym (h.owns q) ∙ ap (is_owner q) free);
          noted = still_noted p locked s.phases s.note refl h.noted;
        })
    | inr (r, busy_now) ↦
        let ne = apart_of r p (ap (is_owner p) (sym busy_now) ∙ h.owns p ∙ ap busy e) in
        let (failed, same) = law.refuses p r s.locks busy_now ne in
        rw failed (record {
          owns =
              released p (held_up s.note) (f.try_lock p s.locks).1 s.phases refl
                (λ q. ap (is_owner q) (same ∙ sym busy_now) ∙ h.owns q);
          noted = still_noted p (held_up s.note) s.phases s.note refl h.noted;
        })
  ]

  write_phase-IsOrderly :
      (p : ℕ) (label now : Text) (x : Phase) (s : State f)
      → s.phases p ≡ x
      → IsOrderly f s
      → IsOrderly f (write_phase f p label now x s)
  unfolding write_phase
  write_phase-IsOrderly p label now away s e h = h
  write_phase-IsOrderly p label now inside s e h = h
  write_phase-IsOrderly p label now leaving s e h = h
  write_phase-IsOrderly p label now (held_up n) s e h = h
  write_phase-IsOrderly p label now locked s e h = record {
    owns = λ q. elim (Bool-cases (p == q)) [
      | inr apart ↦ rw apart (h.owns q)
      | inl self ↦ rw self (
          ap (λ r. is_owner r (f.holder s.locks)) (sym ((==_iff p q).0 self))
          ∙ h.owns p
          ∙ ap busy e)
    ];
    noted = λ q. elim (Bool-cases (p == q)) [
      | inl self ↦ rw self refl
      | inr apart ↦
          let mine = owner-eq p (f.holder s.locks) (h.owns p ∙ ap busy e) in
          let not_q : busy (s.phases q) ≡ false = sym (h.owns q) ∙ ap (is_owner q) mine ∙ apart in
          rw apart (outside (s.phases q) false not_q)
    ];
  }

  leave_phase-IsOrderly :
      (p : ℕ) (x : Phase) (s : State f) → IsOrderly f s → IsOrderly f (leave_phase f p x s)
  unfolding leave_phase
  leave_phase-IsOrderly p away s h = h
  leave_phase-IsOrderly p locked s h = h
  leave_phase-IsOrderly p leaving s h = h
  leave_phase-IsOrderly p (held_up n) s h = h
  leave_phase-IsOrderly p inside s h = record {
    owns = released p leaving s.locks s.phases refl h.owns;
    noted = still_noted p leaving s.phases s.note refl h.noted;
  }

  close_phase-IsOrderly :
      (p : ℕ) (x : Phase) (s : State f) → IsOrderly f s → IsOrderly f (close_phase f p x s)
  unfolding close_phase
  close_phase-IsOrderly p away s h = h
  close_phase-IsOrderly p locked s h = h
  close_phase-IsOrderly p inside s h = h
  close_phase-IsOrderly p (held_up n) s h = h
  close_phase-IsOrderly p leaving s h = close_file-IsOrderly p s h

  step-IsOrderly : (e : Event) (s : State f) → IsOrderly f s → IsOrderly f (step f e s)
  unfolding step
  step-IsOrderly (try p) s h = try_phase-IsOrderly p (s.phases p) s refl h
  step-IsOrderly (write p label now) s h = write_phase-IsOrderly p label now (s.phases p) s refl h
  step-IsOrderly (leave p) s h = leave_phase-IsOrderly p (s.phases p) s h
  step-IsOrderly (close p) s h = close_phase-IsOrderly p (s.phases p) s h
  step-IsOrderly (die p) s h = close_file-IsOrderly p s h

  pub reached-IsOrderly : {s : State f} → Reached f s → IsOrderly f s
  reached-IsOrderly begun = record {
    owns = λ p. ap (is_owner p) law.starts_free;
    noted = λ p. refl;
  }
  reached-IsOrderly (after e {s} r) = step-IsOrderly e s (reached-IsOrderly r)

  -- Two processes are never in the body at once, in any order of their steps, and even if some of
  -- them die on the way.
  pub one_deploy :
      {s : State f} (p q : ℕ) → Reached f s → s.phases p ≡ inside → s.phases q ≡ inside → p ≡ q
  one_deploy {s} p q r hp hq =
      let h = reached-IsOrderly r in
      let op = owner-eq p (f.holder s.locks) (h.owns p ∙ ap busy hp) in
      (==_iff p q).0 (ap (is_owner q) (sym op) ∙ h.owns q ∙ ap busy hq)

  named : (q : ℕ) (o : Option Holder) → names q o ≡ true → (h : Holder) × (o ≡ some h) × (h.pid ≡ q)
  named q none h = cc
  named q (some n) h = (n, refl, (==_iff n.pid q).0 h)

  -- A process that comes while another is in the body fails at once with `FleetLockHeld`, and what it
  -- reports is the note of that other process.
  pub held_up-names :
      {s : State f} (p q : ℕ)
      → Reached f s
      → s.phases p ≡ away
      → s.phases q ≡ inside
      → (h : Holder) × ((step f (try p) s).phases p ≡ held_up (some h)) × (h.pid ≡ q)
  unfolding step try_phase
  held_up-names {s} p q r hp hq =
      let o = reached-IsOrderly r in
      let owned = owner-eq q (f.holder s.locks) (o.owns q ∙ ap busy hq) in
      let ne = apart_of q p (ap (is_owner p) (sym owned) ∙ o.owns p ∙ ap busy hp) in
      let failed = (law.refuses p q s.locks owned ne).0 in
      let (h, noted, pid) =
        named q s.note (ap (λ x. not (is_inside x) || names q s.note) (sym hq) ∙ o.noted q) in
      (h, rw (hp, failed, (==_iff p p).1 refl) (ap held_up noted), pid)

  -- A process that holds the lock and dies leaves it to the next one that comes.
  pub dead_frees :
      {s : State f} (p q : ℕ)
      → Reached f s
      → s.phases p ≡ away
      → busy (s.phases q) ≡ true
      → (step f (try p) (step f (die q) s)).phases p ≡ locked
  unfolding step try_phase
  dead_frees {s} p q r hp hq =
      let o = reached-IsOrderly r in
      let owned = owner-eq q (f.holder s.locks) (o.owns q ∙ hq) in
      let free = law.releases q s.locks owned in
      let got = (law.takes p (f.unlock q s.locks) free).0 in
      elim (Bool-cases (q == p)) [
        | inl self ↦ rw (self, got, (==_iff p p).1 refl) refl
        | inr apart ↦ rw (apart, hp, got, (==_iff p p).1 refl) refl
      ]
