-- ===== src/Base/Sorted.antt =====
-- Sorted sets of texts: `sorted(set(…))`.
use mathlib.Core.Path.{◌≡◌, refl}
use mathlib.Core.Logic.{inl, inr}
use mathlib.Core.Bool.{true, ◌||◌}
use mathlib.Core.List.{List, [], ◌∷◌}
use native.Mathlib.Omega.{arith}
use stayturgid.Base.Tests.{if◌then◌else◌, Bool-cases}
use stayturgid.Base.Lists.{All, All-imp}
use stayturgid.Base.Texts.{
  Text, text_eq, text_eq_iff, text_lt, text_lt_trans, text_lt_total, member,
}

-- A text's place among sorted texts; one that is there is not put in again.
unfoldable pub insert : Text → List Text → List Text
insert t [] = t ∷ []
insert t (u ∷ us) =
    let rest = insert t us in
    if text_eq u t then u ∷ us else if text_lt t u then t ∷ u ∷ us else u ∷ rest

-- `sorted(set(…))`
unfoldable pub sorted_set : List Text → List Text
unfolding insert
sorted_set [] = []
sorted_set (t ∷ ts) = insert t (sorted_set ts)

-- Strictly increasing.
abbrev pub IsSorted : List Text → Type 0
IsSorted [] = Unit
IsSorted (t ∷ ts) = All (λ u. text_lt t u ≡ true) ts × IsSorted ts

pub insert-All :
    (P : Text → Type 0) (t : Text) (us : List Text) → P t → All P us → All P (insert t us)
unfolding insert
insert-All P t [] new h = (new, tt)
insert-All P t (u ∷ us) new h = elim (Bool-cases (text_eq u t)) [
  | inl same ↦ rw (same, insert) h
  | inr other ↦ elim (Bool-cases (text_lt t u)) [
    | inl before ↦ rw (other, before, insert) (new, h)
    | inr after ↦ rw (other, after, insert) (h.0, insert-All P t us new h.1)
  ]
]

pub insert-IsSorted : (t : Text) (us : List Text) → IsSorted us → IsSorted (insert t us)
unfolding insert
insert-IsSorted t [] h = (tt, tt)
insert-IsSorted t (u ∷ us) h = elim (Bool-cases (text_eq u t)) [
  | inl same ↦ rw (same, insert) h
  | inr other ↦ elim (Bool-cases (text_lt t u)) [
    | inl before ↦
        rw (other, before, insert)
          (
            (
              before,
              All-imp (λ v. text_lt u v ≡ true) (λ v. text_lt t v ≡ true) us
                  (λ v k. text_lt_trans t u v before k) h.0,
            ),
            h,
          )
    | inr after ↦
        rw (other, after, insert)
          (
            insert-All (λ v. text_lt u v ≡ true) t us
                (text_lt_total t u (ground (arith, text_eq_iff t u, text_eq_iff u t)) after) h.0,
            insert-IsSorted t us h.1,
          )
  ]
]

pub sorted_set-All : (P : Text → Type 0) (ts : List Text) → All P ts → All P (sorted_set ts)
unfolding sorted_set
sorted_set-All P [] h = tt
sorted_set-All P (t ∷ ts) h = insert-All P t (sorted_set ts) h.0 (sorted_set-All P ts h.1)

pub sorted_set-IsSorted : (ts : List Text) → IsSorted (sorted_set ts)
unfolding sorted_set
sorted_set-IsSorted [] = tt
sorted_set-IsSorted (t ∷ ts) = insert-IsSorted t (sorted_set ts) (sorted_set-IsSorted ts)

pub member-insert :
    (s t : Text) (us : List Text) → member s (insert t us) ≡ (text_eq t s || member s us)
unfolding insert
member-insert s t [] = refl
member-insert s t (u ∷ us) =
    ground (arith, text_eq_iff u t, text_eq_iff u s, text_eq_iff t s, member-insert s t us)

pub member-sorted_set : (s : Text) (ts : List Text) → member s (sorted_set ts) ≡ member s ts
unfolding sorted_set
member-sorted_set s [] = refl
member-sorted_set s (t ∷ ts) =
    ground (arith, member-insert s t (sorted_set ts), member-sorted_set s ts)
