-- ===== src/Lease/Store/Lookup.antt =====
-- What `find_active_lease` finds, and what it shows of the files when it finds nothing.
use stayturgid.Base.{
  ℕ, ◌≡◌, refl, true, false, ◌&&◌, none, some, List, [], ◌∷◌, arith, All, Text, is_empty,
  intersects, Bool-cases, inl, inr,
}
use stayturgid.Lease.Store.{
  Lease, Files, is_active, read, list_leases, first_match, find_active_lease, lease_device_ids,
  all_spellings,
}
use stayturgid.Lease.Store.Laws.{OfLease}

-- The document is not active, or none of its aliases is asked for.
abbrev pub NoMatch : List Text → ℕ → Text → Lease → Type 0
NoMatch keys now p l = is_active l now ≡ true → intersects (lease_device_ids l) keys ≡ false

-- An active document with an alias that is asked for is `lease`.
abbrev pub OnlyMatch : List Text → ℕ → Lease → Text → Lease → Type 0
OnlyMatch keys now lease p l =
    is_active l now ≡ true → intersects (lease_device_ids l) keys ≡ true → l ≡ lease

first_match-none :
    (keys : List Text) (now : ℕ) (s : Files)
    → first_match keys (list_leases true now s) ≡ none
    → All (OfLease (NoMatch keys now)) s
unfolding first_match list_leases
first_match-none keys now [] h = tt
first_match-none keys now ((p, none) ∷ s) h = (tt, first_match-none keys now s h)
first_match-none keys now ((p, some l) ∷ s) h = elim (Bool-cases (is_active l now)) [
  | inr idle ↦ ((λ a. cc), first_match-none keys now s (rw (idle, list_leases) at h))
  | inl active ↦ elim (Bool-cases (intersects (lease_device_ids l) keys)) [
    | inl hit ↦ ground arith
    | inr miss ↦ ((λ a. miss), first_match-none keys now s (ground arith))
  ]
]

intersects-nil : (xs : List Text) → intersects xs [] ≡ false
intersects-nil [] = refl
intersects-nil (x ∷ xs) = intersects-nil xs

-- Nothing is found only where no active document has one of the aliases.
pub find-none :
    (devices : List Text) (now : ℕ) (s : Files)
    → find_active_lease devices now s ≡ none
    → All (OfLease (NoMatch (all_spellings devices) now)) s
unfolding find_active_lease
find-none devices now s h = go (all_spellings devices) h
  where
    go :
        (keys : List Text)
        → (elim keys [ [] ↦ none | k ∷ ks ↦ first_match (k ∷ ks) (list_leases true now s) ]) ≡ none
        → All (OfLease (NoMatch keys now)) s
    go [] e = no_keys s
      where
        no_keys : (t : Files) → All (OfLease (NoMatch [] now)) t
        no_keys [] = tt
        no_keys ((p, none) ∷ t) = (tt, no_keys t)
        no_keys ((p, some l) ∷ t) = ((λ a. intersects-nil (lease_device_ids l)), no_keys t)
    go (k ∷ ks) e = first_match-none (k ∷ ks) now s e

-- One lease alone matches, and its file is there: the lookup finds it.
first_match-only :
    (keys : List Text) (now : ℕ) (lease : Lease) (p : Text) (s : Files)
    → All (OfLease (OnlyMatch keys now lease)) s
    → read p s ≡ some (some lease)
    → is_active lease now ≡ true
    → intersects (lease_device_ids lease) keys ≡ true
    → (q : Text) × (first_match keys (list_leases true now s) ≡ some (q, lease))
unfolding first_match list_leases read
first_match-only keys now lease p [] only r a m = cc
first_match-only keys now lease p ((q, none) ∷ s) only r a m =
    first_match-only keys now lease p s only.1 (ground arith) a m
first_match-only keys now lease p ((q, some l) ∷ s) only r a m =
    elim (Bool-cases (is_active l now && intersects (lease_device_ids l) keys)) [
      | inl hit ↦ (q, ground (arith, only.0))
      | inr miss ↦
          let (q', e) = first_match-only keys now lease p s only.1 (ground arith) a m in
          (q', ground arith)
    ]

pub find-only :
    (device : Text) (now : ℕ) (lease : Lease) (p : Text) (s : Files)
    → is_empty device ≡ false
    → All (OfLease (OnlyMatch (all_spellings (device ∷ [])) now lease)) s
    → read p s ≡ some (some lease)
    → is_active lease now ≡ true
    → intersects (lease_device_ids lease) (all_spellings (device ∷ [])) ≡ true
    → (q : Text) × (find_active_lease (device ∷ []) now s ≡ some (q, lease))
unfolding find_active_lease
find-only [] now lease p s h only r a m = cc
find-only (c ∷ device) now lease p s h only r a m =
    first_match-only (all_spellings ((c ∷ device) ∷ [])) now lease p s only r a m
