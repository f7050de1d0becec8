-- ===== src/Lease/Acquire/Waiting.antt =====
-- The end of `acquire`.
use Prim.Native.Nat.{min}
use stayturgid.Base.{
  ℕ, ◌+◌, ◌-◌, ◌*◌, ◌≤◌, ◌<◌, ◌≡◌, refl, ◌≢◌, Bool, false, none, some, List, [], ◌∷◌, arith, All,
  length, leb, Bool-cases, Option-cases, inl, inr, ◌⊎◌,
}
use stayturgid.Lease.Env.{Env}
use stayturgid.Lease.Store.{Lease, Files, Listed, find_active_lease}
use stayturgid.Lease.Write.{Request}
use stayturgid.Lease.Acquire.{may_renew, conflict, attempt, Poll, attempts, acquire}

-- `time.sleep(min(2.0, remaining))` after each attempt: the next one is no earlier.
abbrev pub Waits : ℕ → ℕ → List Poll → Type 0
Waits deadline earliest [] = Unit
Waits deadline earliest ((now, s) ∷ polls) =
    (earliest ≤ now) × Waits deadline (now + min 2000 (deadline - now)) polls

attempt-none :
    (env : Env) (r : Request) (force : Bool) (deadline now : ℕ) (s : Files)
    → attempt env r force deadline now s ≡ none
    → now < deadline
unfolding attempt
attempt-none env r force deadline now s h =
    elim (Option-cases (find_active_lease (r.device ∷ r.device_ids) now s)) [
      | inl free ↦ ground arith
      | inr ((p, l), held) ↦ ground arith
    ]

attempts_terminate :
    (env : Env) (r : Request) (force : Bool) (deadline n earliest : ℕ) (polls : List Poll)
    → Waits deadline earliest polls
    → deadline ≤ earliest + 2000 * n
    → n < length polls
    → attempts env r force deadline polls ≢ none
unfolding attempts
attempts_terminate env r force deadline n earliest [] w d h = absurd (omega arith)
attempts_terminate env r force deadline n earliest ((now, s) ∷ polls) w d h =
    elim (Option-cases (attempt env r force deadline now s)) [
      | inr (o, done) ↦ λ e. cc (rw (done, attempts) at e)
      | inl asleep ↦
          let early : now < deadline = attempt-none env r force deadline now s asleep in
          rw (asleep, attempts)
            (attempts_terminate env r force deadline (n - 1) (now + min 2000 (deadline - now)) polls
              w.1 (omega arith) (omega arith))
    ]

-- `acquire` returns or raises if it makes one attempt more than its waiting time holds sleeps of
-- two seconds.
pub acquire_terminates :
    (env : Env) (r : Request) (force : Bool) (wait started : ℕ) (polls : List Poll) (n : ℕ)
    → Waits (started + wait) started polls
    → wait ≤ 2000 * n
    → n < length polls
    → acquire env r force wait started polls ≢ none
unfolding acquire
acquire_terminates env r force wait started polls n w d h =
    attempts_terminate env r force (started + wait) n started polls w (omega arith) h

-- Another holder's lease is found, and `r` may not renew it.
abbrev pub Blocked : Env → Request → Poll → Type 0
Blocked env r (now, s) =
    (p : Listed) × (find_active_lease (r.device ∷ r.device_ids) now s ≡ some p)
    × (may_renew env r p.1 ≡ false)

attempt-Blocked :
    (env : Env) (r : Request) (deadline : ℕ) (poll : Poll)
    → Blocked env r poll
    → (attempt env r false deadline poll.0 poll.1 ≡ none)
      ⊎ ((l : Lease) × (attempt env r false deadline poll.0 poll.1 ≡ some (conflict l))
          × (may_renew env r l ≡ false))
unfolding attempt
attempt-Blocked env r deadline (now, s) ((p, l), held, foreign) =
    elim (Bool-cases (leb deadline now)) [
      | inl late ↦ inr (l, ground arith, foreign)
      | inr early ↦ inl (ground arith)
    ]

attempts-Blocked :
    (env : Env) (r : Request) (deadline : ℕ) (polls : List Poll)
    → All (Blocked env r) polls
    → (attempts env r false deadline polls ≡ none)
      ⊎ ((l : Lease) × (attempts env r false deadline polls ≡ some (conflict l))
          × (may_renew env r l ≡ false))
unfolding attempts
attempts-Blocked env r deadline [] h = inl refl
attempts-Blocked env r deadline ((now, s) ∷ polls) h =
    elim (attempt-Blocked env r deadline (now, s) h.0) [
      | inl asleep ↦ rw (asleep, attempts) (attempts-Blocked env r deadline polls h.1)
      | inr (l, raised, foreign) ↦ inr (l, rw (raised, attempts), foreign)
    ]

-- If every attempt finds first a lease that the caller may not renew, `acquire` without force ends
-- with the conflict and such a lease, if it makes one attempt more than its waiting time holds
-- sleeps of two seconds.
pub acquire-Blocked :
    (env : Env) (r : Request) (wait started : ℕ) (polls : List Poll) (n : ℕ)
    → All (Blocked env r) polls
    → Waits (started + wait) started polls
    → wait ≤ 2000 * n
    → n < length polls
    → (l : Lease) × (acquire env r false wait started polls ≡ some (conflict l))
      × (may_renew env r l ≡ false)
unfolding acquire
acquire-Blocked env r wait started polls n held w d h =
    elim (attempts-Blocked env r (started + wait) polls held) [
      | inl waiting ↦
          absurd
            (unfold acquire in acquire_terminates env r false wait started polls n w d h waiting)
      | inr raised ↦ raised
    ]
