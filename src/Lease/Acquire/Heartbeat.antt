-- ===== src/Lease/Acquire/Heartbeat.antt =====
-- What a heartbeat does to the files.
use stayturgid.Base.{
  ℕ, ◌+◌, ◌*◌, ◌/◌, ◌≤◌, ◌≡◌, refl, ◌⊎◌, inl, inr, true, Option, none, some, [], ◌∷◌, arith, Text,
  lt→ltb, member, Bool-cases,
}
use stayturgid.Lease.Key.{lease_path}
use stayturgid.Lease.Env.{Env}
use stayturgid.Lease.Store.{Lease, Files, Listed, is_active, read, find_active_lease, ours}
use stayturgid.Lease.Store.Laws.{IsOrdered}
use stayturgid.Lease.Write.{write_lease_all_keys, write_targets}
use stayturgid.Lease.Write.Laws.{write-read, write-IsOrdered}
use stayturgid.Lease.Acquire.{renewed_ttl, extended, heartbeat_found, heartbeat}

-- What a heartbeat at `now` has done to the files `s`.
pub record Refreshes (env : Env) (device session : Text) (ttl now : ℕ) (s : Files) (l' : Lease)
    (s' : Files) : Type 0 where
  -- the lease was found, is of this project and not of another session
  pub found :
      (p : Text) × (l : Lease) × (find_active_lease (device ∷ []) now s ≡ some (p, l))
      × (ours env session l ≡ true)
      × (l' ≡ extended ttl now l)
  -- every key of the lease holds the refreshed lease
  pub everywhere :
      (d : Text)
      → member d (write_targets l' device) ≡ true
      → read (lease_path d) s' ≡ some (some l')
  -- the names stay in order
  pub ordered : IsOrdered s → IsOrdered s'

module _ (env : Env) (device session : Text) (ttl now : ℕ) (s : Files) where
  heartbeat_found_cases :
      (found : Option Listed)
      → find_active_lease (device ∷ []) now s ≡ found
      → (heartbeat_found env device session ttl now found s ≡ (none, s))
        ⊎ ((l' : Lease) × (s' : Files) × (heartbeat_found env device session ttl now found s
              ≡ (some l', s'))
            × Refreshes env device session ttl now s l' s')
  unfolding heartbeat_found ours
  heartbeat_found_cases none e = inl refl
  heartbeat_found_cases (some (p, l)) e = elim (Bool-cases (ours env session l)) [
    | inl mine ↦ inr (
      extended ttl now l,
      write_lease_all_keys (extended ttl now l) device (some p) s,
      ground arith,
      record {
        found = (p, l, e, mine, refl);
        everywhere = λ d m. write-read (extended ttl now l) d device (some p) s m;
        ordered = write-IsOrdered (extended ttl now l) device (some p) s;
      },
    )
    | inr other ↦ inl (ground arith)
  ]

  -- A heartbeat returns nothing and changes no file, or it found a lease of this project and session
  -- and every key of that lease holds it with the new times.
  pub heartbeat-Refreshes :
      (heartbeat env device session ttl now s ≡ (none, s))
      ⊎ ((l' : Lease) × (s' : Files) × (heartbeat env device session ttl now s ≡ (some l', s'))
          × Refreshes env device session ttl now s l' s')
  unfolding heartbeat
  heartbeat-Refreshes = heartbeat_found_cases (find_active_lease (device ∷ []) now s) refl

  pub heartbeat-IsOrdered : IsOrdered s → IsOrdered (heartbeat env device session ttl now s).1
  heartbeat-IsOrdered h = elim heartbeat-Refreshes [
    | inl e ↦ rw e h
    | inr (l', s', e, r) ↦ rw e (r.ordered h)
  ]

-- A lease that is extended at `now` is active until one second before its time to live is over.
pub extended-is_active :
    (ttl now later : ℕ) (l : Lease)
    → later + 1000 ≤ now + renewed_ttl ttl l * 1000
    → is_active (extended ttl now l) later ≡ true
unfolding is_active extended
extended-is_active ttl now later l h =
    lt→ltb later ((now + renewed_ttl ttl l * 1000) / 1000 * 1000) (omega arith)
