-- ===== src/Lease/Write/Laws.antt =====
-- What `_write_lease_all_keys` leaves in the files.
use stayturgid.Base.{
  ◌≡◌, true, Option, none, some, List, [], ◌∷◌, arith, All, Text, text_eq, text_eq_iff,
  text_eq_refl, member, Bool-cases, inl, inr,
}
use stayturgid.Lease.Key.{lease_path}
use stayturgid.Lease.Store.{Lease, Files, put, read}
use stayturgid.Lease.Store.Laws.{read-put, put-All, IsOrdered, put-IsOrdered}
use stayturgid.Lease.Write.{write_keys, write_targets, write_found, write_lease_all_keys}

-- What `put` of the lease keeps under every name, the whole write keeps.
module _ (Q : Files → Type 0) (l : Lease)
    (keep : (p : Text) (s : Files) → Q s → Q (put p (some l) s)) where
  write_keys-keeps : (ks written : List Text) (s : Files) → Q s → Q (write_keys l ks written s).1
  unfolding write_keys
  write_keys-keeps [] written s h = h
  write_keys-keeps (k ∷ ks) written s h = elim (Bool-cases (member (lease_path k) written)) [
    | inl old ↦ rw old (write_keys-keeps ks written s h)
    | inr new ↦ rw new (
        write_keys-keeps ks (lease_path k ∷ written) (put (lease_path k) (some l) s)
          (keep (lease_path k) s h))
  ]

  write_found-keeps :
      (found : Option Text) (acc : List Text × Files) → Q acc.1 → Q (write_found l found acc)
  write_found-keeps none acc h = h
  write_found-keeps (some p) acc h = elim (Bool-cases (member p acc.0)) [
    | inl old ↦ rw (old, write_found) h
    | inr new ↦ rw (new, write_found) (keep p acc.1 h)
  ]

  pub write-keeps :
      (primary : Text) (found : Option Text) (s : Files)
      → Q s
      → Q (write_lease_all_keys l primary found s)
  unfolding write_lease_all_keys
  write-keeps primary found s h =
      write_found-keeps found (write_keys l (write_targets l primary) [] s)
        (write_keys-keeps (write_targets l primary) [] s h)

pub write-All :
    (P : Text × Option Lease → Type 0) (l : Lease) (primary : Text) (found : Option Text)
    (s : Files)
    → ((p : Text) → P (p, some l))
    → All P s
    → All P (write_lease_all_keys l primary found s)
write-All P l primary found s new h =
    write-keeps (All P) l (λ p t. put-All P p (some l) t (new p)) primary found s h

pub write-IsOrdered :
    (l : Lease) (primary : Text) (found : Option Text) (s : Files)
    → IsOrdered s
    → IsOrdered (write_lease_all_keys l primary found s)
write-IsOrdered l primary found s h =
    write-keeps IsOrdered l (λ p t. put-IsOrdered p (some l) t) primary found s h

-- A file that holds the lease goes on to hold it.
write-read_kept :
    (l : Lease) (q p : Text) (s : Files)
    → read q s ≡ some (some l)
    → read q (put p (some l) s) ≡ some (some l)
write-read_kept l q p s h = ground (arith, read-put p q (some l) s)

-- The names in `written` hold the lease.
abbrev AllWritten : Lease → List Text → Files → Type 0
AllWritten l written s = (p : Text) → member p written ≡ true → read p s ≡ some (some l)

put-AllWritten :
    (l : Lease) (p : Text) (written : List Text) (s : Files)
    → AllWritten l written s
    → AllWritten l (p ∷ written) (put p (some l) s)
put-AllWritten l p written s h q m = ground (arith, h q, read-put p q (some l) s, text_eq_iff p q)

write_keys-read_kept :
    (l : Lease) (q : Text) (ks written : List Text) (s : Files)
    → read q s ≡ some (some l)
    → read q (write_keys l ks written s).1 ≡ some (some l)
write_keys-read_kept l q ks written s h =
    write_keys-keeps (λ t. read q t ≡ some (some l)) l (write-read_kept l q) ks written s h

write_keys-read :
    (l : Lease) (k : Text) (ks written : List Text) (s : Files)
    → AllWritten l written s
    → member k ks ≡ true
    → read (lease_path k) (write_keys l ks written s).1 ≡ some (some l)
unfolding write_keys
write_keys-read l k [] written s h m = cc
write_keys-read l k (j ∷ ks) written s h m = elim (Bool-cases (text_eq j k)) [
  | inl same ↦
      let e : j ≡ k = (text_eq_iff j k).0 same in
      elim (Bool-cases (member (lease_path j) written)) [
        | inl old ↦
            rw (old, ← e)
              (write_keys-read_kept l (lease_path j) ks written s (h (lease_path j) old))
        | inr new ↦
            rw (new, ← e)
              (write_keys-read_kept l (lease_path j) ks (lease_path j ∷ written)
                (put (lease_path j) (some l) s)
                (put-AllWritten l (lease_path j) written s h (lease_path j)
                  (ground (arith, text_eq_refl (lease_path j)))))
      ]
  | inr other ↦ elim (Bool-cases (member (lease_path j) written)) [
    | inl old ↦ rw old (write_keys-read l k ks written s h (rw (other, member) at m))
    | inr new ↦ rw new (
        write_keys-read l k ks (lease_path j ∷ written) (put (lease_path j) (some l) s)
          (put-AllWritten l (lease_path j) written s h) (rw (other, member) at m))
  ]
]

pub write-read :
    (l : Lease) (k primary : Text) (found : Option Text) (s : Files)
    → member k (write_targets l primary) ≡ true
    → read (lease_path k) (write_lease_all_keys l primary found s) ≡ some (some l)
unfolding write_lease_all_keys
write-read l k primary found s m =
    write_found-keeps (λ t. read (lease_path k) t ≡ some (some l)) l
      (write-read_kept l (lease_path k)) found (write_keys l (write_targets l primary) [] s)
      (write_keys-read l k (write_targets l primary) [] s (λ p e. cc) m)
