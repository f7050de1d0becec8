-- ===== src/Lease/Acquire.antt =====
-- `acquire` and `heartbeat` of control/lib/device_screen_lease.py. The body under the exclusive
-- file lock is one step, in which the clock stands still. Between two attempts the process sleeps
-- outside the lock, so each attempt sees the files that the other processes have left.
pub mod Waiting
pub mod Exclusive
pub mod Renewal
pub mod Heartbeat
use stayturgid.Base.{
  ℕ, ◌+◌, ◌*◌, Bool, true, false, ◌&&◌, ◌||◌, not, Option, none, some, List, [], ◌∷◌, Text,
  is_empty, or_else, text_eq, leb, ◌==◌, if◌then◌else◌,
}
use stayturgid.Lease.Env.{Env, project_id}
use stayturgid.Lease.Store.{
  Holder, Lease, Files, Listed, iso, holder_session, find_active_lease, ours,
}
use stayturgid.Lease.Write.{Request, build_lease, write_lease_all_keys, default_ttl_sec}

abbrev pid_matches : Option Holder → ℕ → Bool
pid_matches none pid = false
pid_matches (some h) pid = h.pid == pid

-- The caller's session, or a fresh one.
abbrev pub session_of_request : Env → Request → Text
session_of_request env r = or_else r.session_id env.fresh_id

-- `r` with the session and the project that `acquire` settles on before its loop.
abbrev pub settled : Env → Request → Request
settled env r = record r {
  session_id = session_of_request env r;
  project = or_else r.project (project_id env);
}

unfoldable pub may_renew : Env → Request → Lease → Bool
may_renew env r l =
    ours env [] l
    && (text_eq (holder_session l) (session_of_request env r) || pid_matches l.holder env.pid)

unfoldable pub can_write : Env → Request → Bool → Option Listed → Bool
can_write env r force none = true
can_write env r force (some (p, l)) = may_renew env r l || force

pub data Outcome : Type 0 where
  acquired : Lease → Files → Outcome
  conflict : Lease → Outcome

-- `raise LeaseConflict` names the lease that was found; with none found the lease was written.
abbrev pub give_up : Bool → Option Listed → Option Outcome
give_up expired none = none
give_up expired (some (p, l)) = if expired then some (conflict l) else none

-- One pass through the locked section: the lease is written, or the deadline has passed, or (`none`)
-- the process goes to sleep.
unfoldable pub attempt : Env → Request → Bool → ℕ → ℕ → Files → Option Outcome
unfolding can_write
attempt env r force deadline now s =
    let existing = find_active_lease (r.device ∷ r.device_ids) now s in
    let lease = build_lease env (settled env r) now in
    if can_write env r force existing
    then some (acquired lease (write_lease_all_keys lease r.device none s))
    else give_up (leb deadline now) existing

-- What an attempt finds: the time and the files.
abbrev pub Poll : Type 0
Poll = ℕ × Files

unfoldable pub attempts : Env → Request → Bool → ℕ → List Poll → Option Outcome
unfolding attempt
attempts env r force deadline [] = none
attempts env r force deadline ((now, s) ∷ polls) =
    let again = attempts env r force deadline polls in
    elim (attempt env r force deadline now s) [ some o ↦ some o | none ↦ again ]

-- `acquire` entered at `started`, with the seconds to wait in milliseconds. `none` is a process that
-- is still waiting when `polls` ends.
unfoldable pub acquire : Env → Request → Bool → ℕ → ℕ → List Poll → Option Outcome
unfolding attempts
acquire env r force wait started polls = attempts env r force (started + wait) polls

-- `int(ttl_sec or lease.get("ttl_sec") or DEFAULT_TTL_SEC)`
abbrev pub renewed_ttl : ℕ → Lease → ℕ
renewed_ttl ttl l =
    if ttl == 0 then (if l.ttl_sec == 0 then default_ttl_sec else l.ttl_sec) else ttl

unfoldable pub extended : ℕ → ℕ → Lease → Lease
extended ttl now l = record l {
  heartbeat_at = iso now;
  expires_at = some (iso (now + renewed_ttl ttl l * 1000));
}

unfoldable pub heartbeat_found :
    Env → Text → Text → ℕ → ℕ → Option Listed → Files → Option Lease × Files
unfolding extended
heartbeat_found env device session ttl now none s = (none, s)
heartbeat_found env device session ttl now (some (p, l)) s =
    if ours env [] l
    then (if not (is_empty session)
          && (not (is_empty (holder_session l)) && not (text_eq (holder_session l) session))
        then (none, s)
        else (
          some (extended ttl now l),
          write_lease_all_keys (extended ttl now l) device (some p) s,
        ))
    else (none, s)

-- The lease that was refreshed, and the files. The session is empty if the caller gives none.
unfoldable pub heartbeat : Env → Text → Text → ℕ → ℕ → Files → Option Lease × Files
unfolding heartbeat_found
heartbeat env device session ttl now s =
    heartbeat_found env device session ttl now (find_active_lease (device ∷ []) now s) s
