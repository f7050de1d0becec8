-- ===== src/Lease/Store/Laws.antt =====
-- The lease files as a map from names to contents, and their order.
use mathlib.Core.Path.{subst, subst₂}
use stayturgid.Base.{
  ◌≡◌, refl, true, false, Option, none, some, [], ◌∷◌, arith, All, All-imp, Text, text_eq,
  text_eq_iff, text_eq_refl, text_lt, text_lt_irrefl, text_lt_trans, text_lt_total, if◌then◌else◌,
  Bool-cases, inl, inr,
}
use stayturgid.Lease.Store.{Lease, Files, put, unlink, read}

pub read-put :
    (p q : Text) (l : Option Lease) (s : Files)
    → read q (put p l s) ≡ (if text_eq p q then some l else read q s)
unfolding read put
read-put p q l [] = refl
read-put p q l ((r, m) ∷ s) =
    ground (arith, text_eq_iff r p, text_eq_iff r q, text_eq_iff p q, read-put p q l s)

pub read-unlink_ne : (p q : Text) (s : Files) → text_eq p q ≡ false → read q (unlink p s) ≡ read q s
unfolding read unlink
read-unlink_ne p q [] h = refl
read-unlink_ne p q ((r, m) ∷ s) h =
    ground (arith, text_eq_iff r p, text_eq_iff r q, text_eq_iff p q, read-unlink_ne p q s h)

-- The names come in strictly increasing order, so none comes twice.
abbrev pub After : Text → Text × Option Lease → Type 0
After p f = text_lt p f.0 ≡ true

abbrev pub IsOrdered : Files → Type 0
IsOrdered [] = Unit
IsOrdered (f ∷ s) = All (After f.0) s × IsOrdered s

pub put-All :
    (P : Text × Option Lease → Type 0) (p : Text) (l : Option Lease) (s : Files)
    → P (p, l)
    → All P s
    → All P (put p l s)
unfolding put
put-All P p l [] new h = (new, tt)
put-All P p l ((q, m) ∷ s) new h = elim (Bool-cases (text_eq q p)) [
  | inl same ↦ rw (same, put) (new, h.1)
  | inr other ↦ elim (Bool-cases (text_lt p q)) [
    | inl before ↦ rw (other, before, put) (new, (h.0, h.1))
    | inr later ↦ rw (other, later, put) (h.0, put-All P p l s new h.1)
  ]
]

unlink-All :
    (P : Text × Option Lease → Type 0) (p : Text) (s : Files) → All P s → All P (unlink p s)
unfolding unlink
unlink-All P p [] h = tt
unlink-All P p ((q, m) ∷ s) h = elim (Bool-cases (text_eq q p)) [
  | inl same ↦ rw (same, unlink) h.1
  | inr other ↦ rw (other, unlink) (h.0, unlink-All P p s h.1)
]

pub put-IsOrdered : (p : Text) (l : Option Lease) (s : Files) → IsOrdered s → IsOrdered (put p l s)
unfolding put
put-IsOrdered p l [] h = (tt, tt)
put-IsOrdered p l ((q, m) ∷ s) h = elim (Bool-cases (text_eq q p)) [
  | inl same ↦
      rw (same, put)
        (All-imp (After q) (After p) s (λ f k. rw (← (text_eq_iff q p).0 same) k) h.0, h.1)
  | inr other ↦ elim (Bool-cases (text_lt p q)) [
    | inl before ↦
        rw (other, before, put)
          ((before, All-imp (After q) (After p) s (λ f k. text_lt_trans p q f.0 before k) h.0), h)
    | inr later ↦
        rw (other, later, put)
          (
            put-All (After q) p l s
                (text_lt_total p q (ground (arith, text_eq_iff p q, text_eq_iff q p)) later) h.0,
            put-IsOrdered p l s h.1,
          )
  ]
]

pub unlink-IsOrdered : (p : Text) (s : Files) → IsOrdered s → IsOrdered (unlink p s)
unfolding unlink
unlink-IsOrdered p [] h = tt
unlink-IsOrdered p ((q, m) ∷ s) h = elim (Bool-cases (text_eq q p)) [
  | inl same ↦ rw (same, unlink) h.1
  | inr other ↦ rw (other, unlink) (unlink-All (After q) p s h.0, unlink-IsOrdered p s h.1)
]

read_of_After : (p : Text) (s : Files) → All (After p) s → read p s ≡ none
unfolding read
read_of_After p [] h = refl
read_of_After p ((q, m) ∷ s) h =
    ground (arith, text_eq_iff q p, text_lt_irrefl p, read_of_After p s h.1)

pub read-unlink_self : (p : Text) (s : Files) → IsOrdered s → read p (unlink p s) ≡ none
unfolding read unlink
read-unlink_self p [] h = refl
read-unlink_self p ((q, m) ∷ s) h = elim (Bool-cases (text_eq q p)) [
  | inl same ↦ rw (same, unlink, ← (text_eq_iff q p).0 same) (unfold read in read_of_After q s h.0)
  | inr other ↦ rw (other, unlink, read, other) (read-unlink_self p s h.1)
]

-- A property of every document in the directory.
abbrev pub OfLease : (Text → Lease → Type 0) → Text × Option Lease → Type 0
OfLease P (p, none) = Unit
OfLease P (p, some l) = P p l

pub read-All :
    (P : Text → Lease → Type 0) (p : Text) (l : Lease) (s : Files)
    → All (OfLease P) s
    → read p s ≡ some (some l)
    → P p l
unfolding read
read-All P p l [] h e = cc
read-All P p l ((q, none) ∷ s) h e = elim (Bool-cases (text_eq q p)) [
  | inl same ↦ cc (rw (same, read) at e)
  | inr other ↦ read-All P p l s h.1 (rw (other, read) at e)
]
read-All P p l ((q, some m) ∷ s) h e = elim (Bool-cases (text_eq q p)) [
  | inl same ↦ subst₂ P ((text_eq_iff q p).0 same) (cc (rw (same, read) at e)) h.0
  | inr other ↦ read-All P p l s h.1 (rw (other, read) at e)
]

-- What holds of every document that is read holds of all of them.
pub All-read :
    (P : Text → Lease → Type 0) (s : Files)
    → IsOrdered s
    → ((p : Text) (l : Lease) → read p s ≡ some (some l) → P p l)
    → All (OfLease P) s
unfolding read
All-read P [] o f = tt
All-read P ((q, m) ∷ s) o f = (
  first m refl,
  All-read P s o.1 (λ p l r. elim (Bool-cases (text_eq q p)) [
    | inl same ↦ absurd (
        cc (
          subst (λ x. read x s ≡ none) ((text_eq_iff q p).0 same)
              (unfold read in read_of_After q s o.0),
          r,
        ))
    | inr other ↦ f p l (rw (read, other) r)
  ]),
)
  where
    first : (file : Option Lease) → m ≡ file → OfLease P (q, file)
    first none e = tt
    first (some l) e = f q l (rw (read, text_eq_refl q, e) refl)
