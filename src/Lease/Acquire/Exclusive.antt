-- ===== src/Lease/Acquire/Exclusive.antt =====
-- Who finds a lease after it was acquired.
use mathlib.Core.List.{append-nil}
use stayturgid.Base.{
  ℕ, ◌+◌, ◌*◌, ◌≤◌, ◌<◌, ◌≡◌, refl, Bool, true, false, Option, none, some, List, [], ◌∷◌, ◌++◌,
  arith, All, All-imp, length, Text, is_empty, member, intersects, text_eq_refl, lt→ltb,
  Option-cases, inl, inr,
}
use stayturgid.Lease.Key.{lease_path, device_key}
use stayturgid.Lease.Env.{Env}
use stayturgid.Lease.Store.{
  Lease, Files, expiry, is_active, find_active_lease, lease_device_ids, all_spellings, spellings,
}
use stayturgid.Lease.Store.Laws.{OfLease}
use stayturgid.Lease.Store.Lookup.{NoMatch, OnlyMatch, find-none, find-only}
use stayturgid.Lease.Write.{Request, build_lease, write_lease_all_keys, write_targets}
use stayturgid.Lease.Write.Laws.{write-All, write-read}
use stayturgid.Lease.Acquire.{settled, may_renew, acquired, conflict, attempt, Poll, acquire}
use stayturgid.Lease.Acquire.Waiting.{Waits, Blocked, acquire-Blocked}

member-append_left :
    (x : Text) (ys zs : List Text) → member x ys ≡ true → member x (ys ++ zs) ≡ true
member-append_left x [] zs h = cc
member-append_left x (y ∷ ys) zs h = ground (arith, member-append_left x ys zs)

intersects-append_left :
    (xs ys zs : List Text) → intersects xs ys ≡ true → intersects xs (ys ++ zs) ≡ true
intersects-append_left [] ys zs h = cc
intersects-append_left (x ∷ xs) ys zs h =
    ground (arith, member-append_left x ys zs, intersects-append_left xs ys zs)

-- What an attempt that is free to write has written.
pub attempt_writes :
    (env : Env) (r : Request) (force : Bool) (deadline now : ℕ) (s : Files) {lease : Lease}
    {s' : Files}
    → attempt env r force deadline now s ≡ some (acquired lease s')
    → (lease ≡ build_lease env (settled env r) now)
      × (s' ≡ write_lease_all_keys (build_lease env (settled env r) now) r.device none s)
unfolding attempt
attempt_writes env r force deadline now s h =
    elim (Option-cases (find_active_lease (r.device ∷ r.device_ids) now s)) [
      | inl free ↦ ground arith
      | inr ((p, l), held) ↦ ground arith
    ]

-- What an attempt that is free to write leaves active under the aliases that were asked for.
attempt-OnlyMatch :
    (env : Env) (r : Request) (force : Bool) (deadline now : ℕ) (s : Files) {lease : Lease}
    {s' : Files}
    → find_active_lease (r.device ∷ r.device_ids) now s ≡ none
    → attempt env r force deadline now s ≡ some (acquired lease s')
    → All (OfLease (OnlyMatch (all_spellings (r.device ∷ r.device_ids)) now lease)) s'
attempt-OnlyMatch env r force deadline now s {lease} {s'} free done =
    let keys = all_spellings (r.device ∷ r.device_ids) in
    let (e, w) = attempt_writes env r force deadline now s done in
    rw (e, w)
      (write_all now (build_lease env (settled env r) now) keys
        (find-none (r.device ∷ r.device_ids) now s free))
  where
    weaken :
        (time : ℕ) (l : Lease) (keys : List Text) (f : Text × Option Lease)
        → OfLease (NoMatch keys time) f
        → OfLease (OnlyMatch keys time l) f
    weaken time l keys (p, none) h = tt
    weaken time l keys (p, some m) h = λ a hit. ground (arith, h a)

    write_all :
        (time : ℕ) (l : Lease) (keys : List Text)
        → All (OfLease (NoMatch keys time)) s
        → All (OfLease (OnlyMatch keys time l)) (write_lease_all_keys l r.device none s)
    write_all time l keys h =
        write-All (OfLease (OnlyMatch keys time l)) l r.device none s (λ p a hit. refl)
          (All-imp (OfLease (NoMatch keys time)) (OfLease (OnlyMatch keys time l)) s
            (weaken time l keys) h)

-- Later, and for the device alone, the same lease is the only match.
OnlyMatch-later :
    (device : Text) (devices : List Text) (now later : ℕ) (lease : Lease) (s : Files)
    → now ≤ later
    → All (OfLease (OnlyMatch (all_spellings (device ∷ devices)) now lease)) s
    → All (OfLease (OnlyMatch (all_spellings (device ∷ [])) later lease)) s
unfolding all_spellings is_active
OnlyMatch-later device devices now later lease [] le h = tt
OnlyMatch-later device devices now later lease ((p, none) ∷ s) le h =
    (tt, OnlyMatch-later device devices now later lease s le h.1)
OnlyMatch-later device devices now later lease ((p, some l) ∷ s) le h = (
  (λ a hit. h.0 (ground arith) (
      intersects-append_left (lease_device_ids l) (spellings device) (all_spellings devices)
        (rw append-nil at hit))),
  OnlyMatch-later device devices now later lease s le h.1,
)

spellings-intersects :
    (d : Text) (xs : List Text)
    → is_empty d ≡ false
    → intersects (spellings d ++ xs) (spellings d ++ []) ≡ true
spellings-intersects [] xs h = cc
spellings-intersects (c ∷ d) xs h = ground (arith, text_eq_refl (device_key (c ∷ d)))

build_lease-intersects :
    (env : Env) (r : Request) (now : ℕ)
    → is_empty r.device ≡ false
    → intersects (lease_device_ids (build_lease env r now)) (all_spellings (r.device ∷ [])) ≡ true
unfolding lease_device_ids build_lease
build_lease-intersects env r now h =
    spellings-intersects r.device (all_spellings (build_lease env r now).device_ids) h

pub member-write_targets :
    (env : Env) (r : Request) (now : ℕ)
    → is_empty r.device ≡ false
    → member r.device (write_targets (build_lease env r now) r.device) ≡ true
unfolding write_targets
member-write_targets env r now h = ground (arith, text_eq_refl r.device)

-- After an attempt that found a device with a name free and acquired it, every lookup of the
-- device finds the lease until it expires.
pub acquire_holds :
    (env : Env) (r : Request) (force : Bool) (deadline now later : ℕ) (s : Files) {lease : Lease}
    {s' : Files}
    → is_empty r.device ≡ false
    → find_active_lease (r.device ∷ r.device_ids) now s ≡ none
    → attempt env r force deadline now s ≡ some (acquired lease s')
    → now ≤ later
    → later < expiry lease * 1000
    → (p : Text) × (find_active_lease (r.device ∷ []) later s' ≡ some (p, lease))
unfolding is_active
acquire_holds env r force deadline now later s {lease} {s'} named free done le fresh =
    let (e, w) = attempt_writes env r force deadline now s done in
    find-only r.device later lease (lease_path r.device) s' named
      (OnlyMatch-later r.device r.device_ids now later lease s' le
        (attempt-OnlyMatch env r force deadline now s free done))
      (rw (e, w)
        (write-read (build_lease env (settled env r) now) r.device r.device none s
          (member-write_targets env (settled env r) now named)))
      (ground (arith, lt→ltb later (expiry lease * 1000)))
      (rw e (build_lease-intersects env (settled env r) now named))

-- Another caller sees these files, from the attempt on and until the lease expires.
abbrev During : ℕ → Lease → Files → Poll → Type 0
During now lease s (later, t) = (t ≡ s) × (now ≤ later) × (later < expiry lease * 1000)

-- Once a process has acquired a device that was free, an unforced `acquire` of the device alone,
-- by a caller that may not renew that lease, ends with a conflict, if at each of its attempts the
-- files are as that process left them and the lease has not expired, and if it makes one attempt
-- more than its waiting time holds sleeps of two seconds.
pub mutual_exclusion :
    (env other : Env) (r q : Request) (force : Bool) (deadline now wait started n : ℕ) (s : Files)
    {lease : Lease} {s' : Files} (polls : List Poll)
    → is_empty r.device ≡ false
    → find_active_lease (r.device ∷ r.device_ids) now s ≡ none
    → attempt env r force deadline now s ≡ some (acquired lease s')
    → q.device ≡ r.device
    → q.device_ids ≡ []
    → may_renew other q lease ≡ false
    → All (During now lease s') polls
    → Waits (started + wait) started polls
    → wait ≤ 2000 * n
    → n < length polls
    → (l : Lease) × (acquire other q false wait started polls ≡ some (conflict l))
      × (may_renew other q l ≡ false)
mutual_exclusion env other r q force deadline now wait started n s {lease} {s'} polls named free
      done same alone foreign seen w d h =
    acquire-Blocked other q wait started polls n
      (All-imp (During now lease s') (Blocked other q) polls blocked seen) w d h
  where
    blocked : (poll : Poll) → During now lease s' poll → Blocked other q poll
    blocked (later, t) (e, le, fresh) =
        let (p, found) = acquire_holds env r force deadline now later s named free done le fresh in
        ((p, lease), rw (e, same, alone) found, foreign)
