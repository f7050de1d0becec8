-- ===== src/Lease/Release/Laws.antt =====
-- The rounds of the loop of `release`.
use mathlib.Core.Path.{subst}
use mathlib.Core.Option.{some-injective}
use stayturgid.Base.{
  ◌≡◌, ◌⊎◌, inl, inr, Bool, true, false, Option, none, some, List, [], ◌∷◌, arith, Text, member,
  text_eq, text_eq_iff, Bool-cases, Option-cases,
}
use stayturgid.Lease.Env.{Env}
use stayturgid.Lease.Store.{Lease, Files, read, unlink}
use stayturgid.Lease.Store.Laws.{IsOrdered, read-unlink_ne, read-unlink_self, unlink-IsOrdered}
use stayturgid.Lease.Release.{removable, remove_file, remove_one, remove_targets}

module _ (env : Env) (session : Text) (force : Bool) where
  -- A round changes nothing, or unlinks a file that may be removed.
  remove_one-cases :
      (p : Text) (acc : Bool × Files)
      → ((remove_one env session force p acc ≡ acc)
          × ((file : Option Lease)
              → read p acc.1 ≡ some file
              → removable env session force file ≡ false))
        ⊎ ((file : Option Lease) × (read p acc.1 ≡ some file)
            × (removable env session force file ≡ true)
            × (remove_one env session force p acc ≡ (true, unlink p acc.1)))
  unfolding remove_one
  remove_one-cases p acc = elim (Option-cases (read p acc.1)) [
    | inl gone ↦ inl (rw gone, λ file e. cc)
    | inr (file, there) ↦ elim (Bool-cases (removable env session force file)) [
      | inl mine ↦ inr (file, there, mine, rw (there, remove_file, mine))
      | inr other ↦
          inl (rw (there, remove_file, other), λ f e. rw (← some-injective file f (cc)) other)
    ]
  ]

  -- A file that may not be removed stays as it is.
  pub remove_one-kept :
      (q p : Text) (file : Option Lease) (acc : Bool × Files)
      → removable env session force file ≡ false
      → read q acc.1 ≡ some file
      → read q (remove_one env session force p acc).1 ≡ some file
  remove_one-kept q p file acc no_remove h = elim (remove_one-cases p acc) [
    | inl (same, _) ↦ rw same h
    | inr (other, there, mine, e) ↦ rw e (ground (arith, read-unlink_ne p q acc.1, text_eq_iff p q))
  ]

  pub remove_one-IsOrdered :
      (p : Text) (acc : Bool × Files)
      → IsOrdered acc.1
      → IsOrdered (remove_one env session force p acc).1
  remove_one-IsOrdered p acc h = elim (remove_one-cases p acc) [
    | inl (same, _) ↦ rw same h
    | inr (other, there, mine, e) ↦ rw e (unlink-IsOrdered p acc.1 h)
  ]

  -- Of a name that is gone, or holds what may not be removed.
  abbrev pub Settled : Text → Files → Type 0
  Settled q s =
      (file : Option Lease) → read q s ≡ some file → removable env session force file ≡ false

  remove_one-Settled_self :
      (p : Text) (acc : Bool × Files)
      → IsOrdered acc.1
      → Settled p (remove_one env session force p acc).1
  remove_one-Settled_self p acc o = elim (remove_one-cases p acc) [
    | inl (same, kept) ↦ rw same kept
    | inr (other, there, mine, e) ↦ rw e (λ file r. cc (read-unlink_self p acc.1 o))
  ]

  remove_one-Settled :
      (p q : Text) (acc : Bool × Files)
      → IsOrdered acc.1
      → Settled q acc.1
      → Settled q (remove_one env session force p acc).1
  remove_one-Settled p q acc o h = elim (Bool-cases (text_eq p q)) [
    | inl same ↦
        subst (λ x. Settled x (remove_one env session force p acc).1) ((text_eq_iff p q).0 same)
          (remove_one-Settled_self p acc o)
    | inr other ↦ elim (remove_one-cases p acc) [
      | inl (unchanged, _) ↦ rw unchanged h
      | inr (_, there, mine, e) ↦ rw e (λ file r. h file (cc (r, read-unlink_ne p q acc.1 other)))
    ]
  ]

  -- The loop keeps what a round keeps.
  pub remove_targets-keeps :
      (Q : Files → Type 0)
      → ((p : Text) (acc : Bool × Files) → Q acc.1 → Q (remove_one env session force p acc).1)
      → (ps : List Text) (acc : Bool × Files) → Q acc.1
      → Q (remove_targets env session force ps acc).1
  unfolding remove_targets
  remove_targets-keeps Q keep [] acc h = h
  remove_targets-keeps Q keep (p ∷ ps) acc h =
      remove_targets-keeps Q keep ps (remove_one env session force p acc) (keep p acc h)

  abbrev pub OrderedSettled : Text → Files → Type 0
  OrderedSettled q s = IsOrdered s × Settled q s

  pub remove_targets-Settled :
      (q : Text) (ps : List Text) (acc : Bool × Files)
      → IsOrdered acc.1
      → member q ps ≡ true
      → OrderedSettled q (remove_targets env session force ps acc).1
  unfolding remove_targets
  remove_targets-Settled q [] acc o m = cc
  remove_targets-Settled q (p ∷ ps) acc o m = elim (Bool-cases (text_eq p q)) [
    | inl same ↦
        remove_targets-keeps (OrderedSettled q)
          (λ x a h. (remove_one-IsOrdered x a h.0, remove_one-Settled x q a h.0 h.1)) ps
          (remove_one env session force p acc)
          (
            remove_one-IsOrdered p acc o,
            subst (λ x. Settled x (remove_one env session force p acc).1) ((text_eq_iff p q).0 same)
                (remove_one-Settled_self p acc o),
          )
    | inr other ↦
        remove_targets-Settled q ps (remove_one env session force p acc)
          (remove_one-IsOrdered p acc o) (rw (other, member) at m)
  ]

  -- Only names in order, and under `q` nothing but `file`.
  abbrev pub OnlyFile : Text → Option Lease → Files → Type 0
  OnlyFile q file s = IsOrdered s × ((other : Option Lease) → read q s ≡ some other → other ≡ file)

  pub remove_one-OnlyFile :
      (q : Text) (file : Option Lease) (p : Text) (acc : Bool × Files)
      → OnlyFile q file acc.1
      → OnlyFile q file (remove_one env session force p acc).1
  remove_one-OnlyFile q file p acc h = elim (remove_one-cases p acc) [
    | inl (same, _) ↦ rw same h
    | inr (_, there, mine, e) ↦ rw e (
      unlink-IsOrdered p acc.1 h.0,
      elim (Bool-cases (text_eq p q)) [
        | inl same ↦ λ other r. cc (
          subst (λ x. read x (unlink p acc.1) ≡ none) ((text_eq_iff p q).0 same)
              (read-unlink_self p acc.1 h.0),
          r,
        )
        | inr ne ↦ λ other r. h.1 other (cc (r, read-unlink_ne p q acc.1 ne))
      ],
    )
  ]

  -- Names in order, and under `q` nothing that was not there.
  abbrev pub Within : Text → Files → Files → Type 0
  Within q s t = IsOrdered t × ((file : Option Lease) → read q t ≡ some file → read q s ≡ some file)

  pub remove_one-Within :
      (q : Text) (s : Files) (p : Text) (acc : Bool × Files)
      → Within q s acc.1
      → Within q s (remove_one env session force p acc).1
  remove_one-Within q s p acc h = elim (remove_one-cases p acc) [
    | inl (same, _) ↦ rw same h
    | inr (_, there, mine, e) ↦ rw e (
      unlink-IsOrdered p acc.1 h.0,
      elim (Bool-cases (text_eq p q)) [
        | inl same ↦ λ file r. absurd (
            cc (
              subst (λ x. read x (unlink p acc.1) ≡ none) ((text_eq_iff p q).0 same)
                  (read-unlink_self p acc.1 h.0),
              r,
            ))
        | inr ne ↦ λ file r. h.1 file (cc (r, read-unlink_ne p q acc.1 ne))
      ],
    )
  ]
