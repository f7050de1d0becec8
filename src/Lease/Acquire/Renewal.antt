-- ===== src/Lease/Acquire/Renewal.antt =====
-- What an attempt writes, and what it tests first.
use stayturgid.Base.{ℕ, ◌≡◌, ap, ◌≢◌, Bool, true, false, none, some, ◌∷◌, arith, Text, member}
use stayturgid.Lease.Key.{lease_path}
use stayturgid.Lease.Env.{Env}
use stayturgid.Lease.Store.{Lease, Files, is_active, read, find_active_lease}
use stayturgid.Lease.Store.Laws.{IsOrdered}
use stayturgid.Lease.Write.{Request, build_lease, write_lease_all_keys, write_targets}
use stayturgid.Lease.Write.Laws.{write-read, write-IsOrdered}
use stayturgid.Lease.Acquire.{settled, pid_matches, may_renew, acquired, attempt}
use stayturgid.Lease.Acquire.Exclusive.{attempt_writes}

-- After an attempt that acquires, every key of the new lease reads it, whatever was there.
pub acquire-read :
    (env : Env) (r : Request) (force : Bool) (deadline now : ℕ) (s : Files) (d : Text)
    {lease : Lease} {s' : Files}
    → attempt env r force deadline now s ≡ some (acquired lease s')
    → member d (write_targets lease r.device) ≡ true
    → read (lease_path d) s' ≡ some (some lease)
acquire-read env r force deadline now s d {lease} {s'} done m =
    let (e, w) = attempt_writes env r force deadline now s done in
    rw (e, w) (write-read (build_lease env (settled env r) now) d r.device none s (rw e at m))

-- An attempt that acquires leaves the names in strict order if they were.
pub attempt-IsOrdered :
    (env : Env) (r : Request) (force : Bool) (deadline now : ℕ) (s : Files) {lease : Lease}
    {s' : Files}
    → attempt env r force deadline now s ≡ some (acquired lease s')
    → IsOrdered s
    → IsOrdered s'
attempt-IsOrdered env r force deadline now s done h =
    let (e, w) = attempt_writes env r force deadline now s done in
    rw w (write-IsOrdered (build_lease env (settled env r) now) r.device none s h)

build_lease-pid :
    (env : Env) (r : Request) (now : ℕ) → pid_matches (build_lease env r now).holder env.pid ≡ true
unfolding build_lease
build_lease-pid env r now = ground arith

-- The caller's own lease is found first. Then an unforced attempt succeeds and overwrites the active
-- lease that another process holds under an alias `d` of the request.
pub renewal_overwrites :
    (env : Env) (r : Request) (deadline now : ℕ) (s : Files) (p d : Text) (own foreign : Lease)
    → find_active_lease (r.device ∷ r.device_ids) now s ≡ some (p, own)
    → may_renew env r own ≡ true
    → member d (write_targets (build_lease env (settled env r) now) r.device) ≡ true
    → read (lease_path d) s ≡ some (some foreign)
    → is_active foreign now ≡ true
    → pid_matches foreign.holder env.pid ≡ false
    → (lease : Lease) × (s' : Files) × (attempt env r false deadline now s
        ≡ some (acquired lease s'))
      × (read (lease_path d) s' ≢ some (some foreign))
unfolding attempt
renewal_overwrites env r deadline now s p d own foreign found renew m there active other = (
  build_lease env (settled env r) now,
  write_lease_all_keys (build_lease env (settled env r) now) r.device none s,
  ground arith,
  λ e. differs (cc (e, write-read (build_lease env (settled env r) now) d r.device none s m)),
)
  where
    differs : ¬ (build_lease env (settled env r) now ≡ foreign)
    differs e = cc (
      build_lease-pid env (settled env r) now,
      ap (λ (l : Lease). pid_matches l.holder env.pid) e,
    )
