-- ===== src/Lease/Release/Clears.antt =====
-- What a call of `release` removes, and what it leaves.
use mathlib.Core.Option.{some-injective}
use stayturgid.Base.{
  ◌≡◌, ◌⊎◌, All, refl, inl, inr, Bool, true, false, ◌||◌, none, some, List, [], ◌∷◌, ◌++◌, arith,
  Text, member, text_eq, text_eq_iff, text_eq_refl, intersects, Bool-cases, Option-cases,
}
use stayturgid.Lease.Key.{device_key, folded, lease_path}
use stayturgid.Lease.Env.{Env}
use stayturgid.Lease.Store.{Lease, Files, Listed, read, ours, list_leases, lease_device_ids}
use stayturgid.Lease.Store.Laws.{IsOrdered, OfLease, All-read}
use stayturgid.Lease.Release.{
  add_target, add_alias_targets, releasable, collect_one, collect_targets, remove_targets, release,
}
use stayturgid.Lease.Release.Laws.{
  OnlyFile, Within, remove_one-Within, remove_targets-keeps, remove_targets-Settled,
  remove_one-kept, remove_one-OnlyFile, remove_one-IsOrdered,
}

member-append : (q : Text) (xs ys : List Text) → member q (xs ++ ys) ≡ (member q xs || member q ys)
member-append q [] ys = refl
member-append q (x ∷ xs) ys = ground (arith, member-append q xs ys)

member-add_target :
    (q p : Text) (ts : List Text) → member q ts ≡ true → member q (add_target p ts) ≡ true
member-add_target q p ts h = ground (arith, member-append q ts (p ∷ []))

member-add_target_self : (p : Text) (ts : List Text) → member p (add_target p ts) ≡ true
member-add_target_self p ts = ground (arith, member-append p ts (p ∷ []), text_eq_refl p)

member-add_alias_targets :
    (q : Text) (alts ts : List Text)
    → member q ts ≡ true
    → member q (add_alias_targets alts ts) ≡ true
unfolding add_alias_targets
member-add_alias_targets q [] ts h = h
member-add_alias_targets q (alt ∷ alts) ts h =
    member-add_alias_targets q alts (add_target (lease_path alt) ts)
      (member-add_target q (lease_path alt) ts h)

-- The arguments of one call.
module _ (env : Env) (session : Text) (force : Bool) (want : List Text) where
  member-collect_one :
      (q p : Text) (l : Lease) (ts : List Text)
      → member q ts ≡ true
      → member q (collect_one env session force want p l ts) ≡ true
  unfolding collect_one
  member-collect_one q p l ts h =
      ground
        (arith, member-add_alias_targets q l.device_ids (add_target p ts), member-add_target q p ts)

  member-collect_one_self :
      (p : Text) (l : Lease) (ts : List Text)
      → intersects (lease_device_ids l) want ≡ true
      → releasable env session force l ≡ true
      → member p (collect_one env session force want p l ts) ≡ true
  unfolding collect_one
  member-collect_one_self p l ts hit mine =
      rw (hit, mine)
        (member-add_alias_targets p l.device_ids (add_target p ts) (member-add_target_self p ts))

  member-collect :
      (q : Text) (ls : List Listed) (ts : List Text)
      → member q ts ≡ true
      → member q (collect_targets env session force want ls ts) ≡ true
  unfolding collect_targets
  member-collect q [] ts h = h
  member-collect q ((p, l) ∷ ls) ts h =
      member-collect q ls (collect_one env session force want p l ts)
        (member-collect_one q p l ts h)

  member-collect_found :
      (q : Text) (l : Lease) (s : Files) (ts : List Text)
      → read q s ≡ some (some l)
      → intersects (lease_device_ids l) want ≡ true
      → releasable env session force l ≡ true
      → member q (collect_targets env session force want (list_leases false 0 s) ts) ≡ true
  unfolding collect_targets list_leases read
  member-collect_found q l [] ts r hit mine = cc
  member-collect_found q l ((p, none) ∷ s) ts r hit mine =
      member-collect_found q l s ts (ground arith) hit mine
  member-collect_found q l ((p, some m) ∷ s) ts r hit mine = elim (Bool-cases (text_eq p q)) [
    | inl same ↦
        let e : m ≡ l = some-injective m l (some-injective (some m) (some l) (rw same at r)) in
        rw (← (text_eq_iff p q).0 same) (
          member-collect p (list_leases false 0 s) (collect_one env session force want p m ts)
            (member-collect_one_self p m ts (rw e hit) (rw e mine)))
    | inr other ↦
        member-collect_found q l s (collect_one env session force want p m ts) (rw other at r) hit
          mine
  ]

-- A release without force keeps every lease document that is not of the caller's project and session.
pub release_keeps_foreign :
    (env : Env) (device session : Text) (s : Files) (q : Text) (l : Lease)
    → read q s ≡ some (some l)
    → ours env session l ≡ false
    → read q (release env device session false s).1 ≡ some (some l)
unfolding release
release_keeps_foreign env device session s q l there foreign =
    remove_targets-keeps env session false (λ t. read q t ≡ some (some l))
      (λ p acc h. remove_one-kept env session false q p (some l) acc foreign h)
      (collect_targets env session false (device_key device ∷ folded device ∷ [])
        (list_leases false 0 s) (lease_path device ∷ []))
      (false, s) there

-- In a directory whose names are in strict order, a release removes every file of a lease that
-- names the device and is of the caller's project and session; with force, of every lease that
-- names the device.
pub release_clears :
    (env : Env) (device session : Text) (force : Bool) (s : Files) (q : Text) (l : Lease)
    → IsOrdered s
    → read q s ≡ some (some l)
    → intersects (lease_device_ids l) (device_key device ∷ folded device ∷ []) ≡ true
    → releasable env session force l ≡ true
    → read q (release env device session force s).1 ≡ none
unfolding release
release_clears env device session force s q l o there hit mine =
    let want = device_key device ∷ folded device ∷ [] in
    let targets =
      collect_targets env session force want (list_leases false 0 s) (lease_path device ∷ []) in
    let settled =
      remove_targets-Settled env session force q targets (false, s) o
        (member-collect_found env session force want q l s (lease_path device ∷ []) there hit
          mine) in
    let only =
      remove_targets-keeps env session force (OnlyFile env session force q (some l))
        (remove_one-OnlyFile env session force q (some l)) targets (false, s)
        (o, λ file r. some-injective file (some l) (cc (r, there))) in
    elim (Option-cases (read q (remove_targets env session force targets (false, s)).1)) [
      | inl gone ↦ gone
      | inr (file, r) ↦ cc (mine, settled.1 file r, only.1 file r)
    ]

-- A release leaves the names in strict order if they were.
pub release-IsOrdered :
    (env : Env) (device session : Text) (force : Bool) (s : Files)
    → IsOrdered s
    → IsOrdered (release env device session force s).1
unfolding release
release-IsOrdered env device session force s o =
    remove_targets-keeps env session force IsOrdered (remove_one-IsOrdered env session force)
      (collect_targets env session force (device_key device ∷ folded device ∷ [])
        (list_leases false 0 s) (lease_path device ∷ []))
      (false, s) o

-- A document that does not name the device, or is not of the caller's project and session.
abbrev pub IsOther : Env → Text → Text → Text → Lease → Type 0
IsOther env session device p l =
    (intersects (lease_device_ids l) (device_key device ∷ folded device ∷ []) ≡ false)
    ⊎ (ours env session l ≡ false)

-- Whatever a release without force leaves is other.
pub release-IsOther :
    (env : Env) (device session : Text) (s : Files)
    → IsOrdered s
    → All (OfLease (IsOther env session device)) (release env device session false s).1
unfolding release
release-IsOther env device session s o =
    All-read (IsOther env session device) (release env device session false s).1
      (release-IsOrdered env device session false s o) (λ q l r. other q l r)
  where
    other :
        (q : Text) (l : Lease)
        → read q (release env device session false s).1 ≡ some (some l)
        → IsOther env session device q l
    other q l r =
        let want = device_key device ∷ folded device ∷ [] in
        let within =
          remove_targets-keeps env session false (λ t. Within env session false q s t)
            (remove_one-Within env session false q s)
            (collect_targets env session false want (list_leases false 0 s)
              (lease_path device ∷ []))
            (false, s) (o, λ file e. e) in
        let there = within.1 (some l) r in
        elim (Bool-cases (intersects (lease_device_ids l) want)) [
          | inr miss ↦ inl miss
          | inl hit ↦ elim (Bool-cases (ours env session l)) [
            | inr foreign ↦ inr foreign
            | inl mine ↦
                absurd (cc (release_clears env device session false s q l o there hit mine, r))
          ]
        ]
