-- ===== src/Base/Ranked.antt =====
-- `sorted(xs, key=…, reverse=True)`: the greatest key first, elements of one key in their order.
use Prim.Native.Nat.{ℕ, zero, suc}
use mathlib.Core.Path.{◌≡◌}
use mathlib.Core.Logic.{◌⊎◌, inl, inr}
use mathlib.Core.Bool.{true}
use mathlib.Core.List.{List, [], ◌∷◌, ◌++◌}
use stayturgid.Base.Tests.{if◌then◌else◌, Bool-cases}
use stayturgid.Base.Lists.{All, All-imp, take}
use stayturgid.Base.Ints.{ℤ, lebℤ, lebℤ_total, lebℤ_trans}

-- The list without its first elements: `xs[n:]`.
abbrev pub drop {ℓ} : {A : Type ℓ} → ℕ → List A → List A
drop zero xs = xs
drop (suc n) [] = []
drop (suc n) (x ∷ xs) = drop n xs

-- An element is in the list.
pub data In {ℓ} {A : Type ℓ} : A → List A → Type ℓ where
  here : {x : A} {xs : List A} → In x (x ∷ xs)
  there : {x y : A} {xs : List A} → In x xs → In x (y ∷ xs)

module _ {ℓ} {A : Type ℓ} (key : A → ℤ) where
  unfoldable pub place : A → List A → List A
  place x [] = x ∷ []
  place x (y ∷ ys) = let rest = place x ys in if lebℤ (key y) (key x) then x ∷ y ∷ ys else y ∷ rest

  unfoldable pub ranked : List A → List A
  unfolding place
  ranked [] = []
  ranked (x ∷ xs) = place x (ranked xs)

  -- Of two elements, the second has no greater key.
  abbrev pub Before : A → A → Type 0
  Before x y = lebℤ (key y) (key x) ≡ true

  abbrev pub IsRanked : List A → Type ℓ
  IsRanked [] = Unit
  IsRanked (x ∷ xs) = All (Before x) xs × IsRanked xs

  place-All {κ} : (P : A → Type κ) (x : A) (ys : List A) → P x → All P ys → All P (place x ys)
  unfolding place
  place-All P x [] new h = (new, tt)
  place-All P x (y ∷ ys) new h = elim (Bool-cases (lebℤ (key y) (key x))) [
    | inl first ↦ rw (first, place) (new, h)
    | inr after ↦ rw (after, place) (h.0, place-All P x ys new h.1)
  ]

  pub ranked-All {κ} : (P : A → Type κ) (xs : List A) → All P xs → All P (ranked xs)
  unfolding ranked
  ranked-All P [] h = tt
  ranked-All P (x ∷ xs) h = place-All P x (ranked xs) h.0 (ranked-All P xs h.1)

  place-IsRanked : (x : A) (ys : List A) → IsRanked ys → IsRanked (place x ys)
  unfolding place
  place-IsRanked x [] h = (tt, tt)
  place-IsRanked x (y ∷ ys) h = elim (Bool-cases (lebℤ (key y) (key x))) [
    | inl first ↦
        rw (first, place)
          (
            (
              first,
              All-imp (Before y) (Before x) ys (λ z k. lebℤ_trans (key z) (key y) (key x) k first)
                  h.0,
            ),
            h,
          )
    | inr after ↦
        rw (after, place)
          (
            place-All (Before y) x ys (lebℤ_total (key y) (key x) after) h.0,
            place-IsRanked x ys h.1,
          )
  ]

  pub ranked-IsRanked : (xs : List A) → IsRanked (ranked xs)
  unfolding ranked
  ranked-IsRanked [] = tt
  ranked-IsRanked (x ∷ xs) = place-IsRanked x (ranked xs) (ranked-IsRanked xs)

  place-In : (x : A) (ys : List A) → In x (place x ys)
  unfolding place
  place-In x [] = here
  place-In x (y ∷ ys) = elim (Bool-cases (lebℤ (key y) (key x))) [
    | inl first ↦ rw (first, place) here
    | inr after ↦ rw (after, place) (there (place-In x ys))
  ]

  place-In_rest : (x : A) (ys : List A) {z : A} → In z ys → In z (place x ys)
  unfolding place
  place-In_rest x [] h = elim h [ ]
  place-In_rest x (y ∷ ys) here = elim (Bool-cases (lebℤ (key y) (key x))) [
    | inl first ↦ rw (first, place) (there here)
    | inr after ↦ rw (after, place) here
  ]
  place-In_rest x (y ∷ ys) (there h) = elim (Bool-cases (lebℤ (key y) (key x))) [
    | inl first ↦ rw (first, place) (there (there h))
    | inr after ↦ rw (after, place) (there (place-In_rest x ys h))
  ]

  pub ranked-In : (xs : List A) {z : A} → In z xs → In z (ranked xs)
  unfolding ranked
  ranked-In [] h = elim h [ ]
  ranked-In (x ∷ xs) here = place-In x (ranked xs)
  ranked-In (x ∷ xs) (there h) = place-In_rest x (ranked xs) (ranked-In xs h)

module _ {ℓ} {A : Type ℓ} where
  pub In-take_drop : (n : ℕ) (xs : List A) {z : A} → In z xs → In z (take n xs) ⊎ In z (drop n xs)
  In-take_drop zero xs h = inr h
  In-take_drop (suc n) [] h = elim h [ ]
  In-take_drop (suc n) (x ∷ xs) here = inl here
  In-take_drop (suc n) (x ∷ xs) (there h) = elim (In-take_drop n xs h) [
    | inl k ↦ inl (there k)
    | inr k ↦ inr k
  ]

  pub All-at {κ} : (P : A → Type κ) {xs : List A} {z : A} → All P xs → In z xs → P z
  All-at P h here = h.0
  All-at P h (there k) = All-at P h.1 k

  pub All-drop {κ} : (P : A → Type κ) (n : ℕ) (xs : List A) → All P xs → All P (drop n xs)
  All-drop P zero xs h = h
  All-drop P (suc n) [] h = tt
  All-drop P (suc n) (x ∷ xs) h = All-drop P n xs h.1

  pub In-append : (xs ys : List A) {z : A} → In z xs ⊎ In z ys → In z (xs ++ ys)
  In-append [] ys (inl h) = elim h [ ]
  In-append [] ys (inr h) = h
  In-append (x ∷ xs) ys (inl here) = here
  In-append (x ∷ xs) ys (inl (there h)) = there (In-append xs ys (inl h))
  In-append (x ∷ xs) ys (inr h) = there (In-append xs ys (inr h))

-- The first elements of a ranked list come before every later one.
pub IsRanked-take {ℓ} :
    {A : Type ℓ} (key : A → ℤ) (n : ℕ) (xs : List A)
    → IsRanked key xs
    → All (λ x. All (Before key x) (drop n xs)) (take n xs)
IsRanked-take key zero xs h = tt
IsRanked-take key (suc n) [] h = tt
IsRanked-take key (suc n) (x ∷ xs) h =
    (All-drop (Before key x) n xs h.0, IsRanked-take key n xs h.1)
