-- ===== src/DeployLock/Examples.antt =====
-- Two deploys, 7 and 8.
use stayturgid.Base.{
  ℕ, ◌≡◌, ◌≢◌, refl, ap, Bool, true, false, Option, none, some, codes, ◌==◌, ==_iff, if◌then◌else◌,
  Bool-cases, inl, inr,
}
use stayturgid.DeployLock.Lock.{
  Flock, IsFlock, Holder, away, locked, inside, held_up, State, try, write, die, step, start,
  try_phase, write_phase,
}
use stayturgid.DeployLock.Exclusive.{Reached, begun, after, one_deploy, held_up-names, dead_frees}

abbrev toy_try : ℕ → Option ℕ → Bool × Option ℕ
toy_try p none = (true, some p)
toy_try p (some q) = (q == p, some q)

abbrev toy_unlock : ℕ → Option ℕ → Option ℕ
toy_unlock p none = none
toy_unlock p (some q) = if q == p then none else some q

abbrev toy : Flock
toy = record {
  Locks = Option ℕ;
  free = none;
  holder = λ k. k;
  try_lock = toy_try;
  unlock = toy_unlock;
}

toy-refuses :
    (p q : ℕ) (k : Option ℕ)
    → k ≡ some q
    → q ≢ p
    → ((toy_try p k).0 ≡ false) × ((toy_try p k).1 ≡ some q)
toy-refuses p q k e ne = elim (Bool-cases (q == p)) [
  | inl same ↦ absurd (ne ((==_iff q p).0 same))
  | inr other ↦ rw (e, other) (refl, refl)
]

toy-keeps : (p : ℕ) (k : Option ℕ) → k ≢ some p → toy_unlock p k ≡ k
toy-keeps p none ne = refl
toy-keeps p (some q) ne = elim (Bool-cases (q == p)) [
  | inl same ↦ absurd (ne (ap some ((==_iff q p).0 same)))
  | inr other ↦ rw other refl
]

toy-IsFlock : IsFlock toy
toy-IsFlock = record {
  starts_free = refl;
  takes = λ p k e. rw e (refl, refl);
  refuses = toy-refuses;
  releases = λ p k e. rw (e, (==_iff p p).1 refl) refl;
  keeps = toy-keeps;
}

abbrev deploying : State toy
deploying = step toy (write 7 (codes "deploy") (codes "noon")) (step toy (try 7) (start toy))

deploying-Reached : Reached toy deploying
deploying-Reached = after (write 7 (codes "deploy") (codes "noon")) (after (try 7) begun)

seven_inside : deploying.phases 7 ≡ inside
unfolding step try_phase write_phase
seven_inside = refl

eight_away : deploying.phases 8 ≡ away
unfolding step try_phase write_phase
eight_away = refl

one_deploy_example : ◌≡◌ {A = ℕ} 7 7
one_deploy_example = one_deploy toy toy-IsFlock 7 7 deploying-Reached seven_inside seven_inside

held_up-names_example :
    (h : Holder) × ((step toy (try 8) deploying).phases 8 ≡ held_up (some h)) × (h.pid ≡ 7)
held_up-names_example = held_up-names toy toy-IsFlock 8 7 deploying-Reached eight_away seven_inside

dead_frees_example : (step toy (try 8) (step toy (die 7) deploying)).phases 8 ≡ locked
dead_frees_example =
    dead_frees toy toy-IsFlock 8 7 deploying-Reached eight_away (rw seven_inside refl)
