-- ===== src/Base/Ints.antt =====
-- Python's `int`: the numbers, their order and sum, and `int` of an ASCII text.
use Prim.Native.Nat.{ℕ, suc, ◌+◌, ◌-◌, ◌*◌}
use mathlib.Core.Path.{◌≡◌, refl}
use mathlib.Core.Logic.{◌↔◌}
use mathlib.Core.Bool.{Bool, true, false, ◌&&◌}
use mathlib.Core.Option.{Option, none, some}
use mathlib.Core.List.{[], ◌∷◌}
use native.Mathlib.Omega.{arith}
use stayturgid.Base.Tests.{leb, ◌==◌, if◌then◌else◌}
use stayturgid.Base.Texts.{Text, strip}

-- `negsuc n` is -(n + 1).
pub data ℤ : Type 0 where
  pos negsuc : ℕ → ℤ

-- `a - b` of natural numbers.
abbrev pub diff : ℕ → ℕ → ℤ
diff a b = if leb b a then pos (a - b) else negsuc (b - a - 1)

infixl 60 ◌+ℤ◌
unfoldable pub ◌+ℤ◌ : ℤ → ℤ → ℤ
pos a +ℤ pos b = pos (a + b)
pos a +ℤ negsuc b = diff a (suc b)
negsuc a +ℤ pos b = diff b (suc a)
negsuc a +ℤ negsuc b = negsuc (suc (a + b))

unfoldable pub negℤ : ℤ → ℤ
negℤ (pos n) = diff 0 n
negℤ (negsuc n) = pos (suc n)

abbrev pub lebℤ : ℤ → ℤ → Bool
lebℤ (pos a) (pos b) = leb a b
lebℤ (pos a) (negsuc b) = false
lebℤ (negsuc a) (pos b) = true
lebℤ (negsuc a) (negsuc b) = leb b a

abbrev pub eqℤ : ℤ → ℤ → Bool
eqℤ (pos a) (pos b) = a == b
eqℤ (pos a) (negsuc b) = false
eqℤ (negsuc a) (pos b) = false
eqℤ (negsuc a) (negsuc b) = a == b

pub eqℤ_iff : (i j : ℤ) → (eqℤ i j ≡ true) ↔ (i ≡ j)
eqℤ_iff (pos a) (pos b) = ground arith
eqℤ_iff (pos a) (negsuc b) = ground arith
eqℤ_iff (negsuc a) (pos b) = ground arith
eqℤ_iff (negsuc a) (negsuc b) = ground arith

pub lebℤ_total : (i j : ℤ) → lebℤ i j ≡ false → lebℤ j i ≡ true
lebℤ_total (pos a) (pos b) h = ground arith
lebℤ_total (pos a) (negsuc b) h = refl
lebℤ_total (negsuc a) (pos b) h = ground arith
lebℤ_total (negsuc a) (negsuc b) h = ground arith

pub lebℤ_trans : (i j k : ℤ) → lebℤ i j ≡ true → lebℤ j k ≡ true → lebℤ i k ≡ true
lebℤ_trans (pos a) (pos b) (pos c) h l = ground arith
lebℤ_trans (pos a) (pos b) (negsuc c) h l = ground arith
lebℤ_trans (pos a) (negsuc b) k h l = ground arith
lebℤ_trans (negsuc a) (pos b) (pos c) h l = refl
lebℤ_trans (negsuc a) (pos b) (negsuc c) h l = ground arith
lebℤ_trans (negsuc a) (negsuc b) (pos c) h l = refl
lebℤ_trans (negsuc a) (negsuc b) (negsuc c) h l = ground arith

abbrev pub is_digit : ℕ → Bool
is_digit c = leb b'0' c && leb c b'9'

-- Decimal digits with single underscores between them; the flag says that the last one was a digit.
unfoldable pub decimal : Bool → ℕ → Text → Option ℕ
decimal false n [] = none
decimal true n [] = some n
decimal after n (c ∷ s) = elim (is_digit c) [
  | true ↦ decimal true (n * 10 + (c - b'0')) s
  | false ↦ elim (after && c == b'_') [ true ↦ decimal false n s | false ↦ none ]
]

abbrev negated : Option ℕ → Option ℤ
negated none = none
negated (some n) = some (negℤ (pos n))

abbrev positive : Option ℕ → Option ℤ
positive none = none
positive (some n) = some (pos n)

unfoldable pub signed : Text → Option ℤ
unfolding decimal
signed [] = none
signed (c ∷ s) =
    if c == b'-'
    then negated (decimal false 0 s)
    else if c == b'+'
    then positive (decimal false 0 s)
    else positive (decimal false 0 (c ∷ s))

-- `int(text)`; `none` is its ValueError.
unfoldable pub int_of : Text → Option ℤ
unfolding signed
int_of s = signed (strip s)

pub zero_add : (i : ℤ) → pos 0 +ℤ i ≡ i
unfolding ◌+ℤ◌
zero_add (pos a) = ground arith
zero_add (negsuc a) = ground arith

pub add_zero : (i : ℤ) → i +ℤ pos 0 ≡ i
unfolding ◌+ℤ◌
add_zero (pos a) = ground arith
add_zero (negsuc a) = ground arith

pub add_assoc : (i j k : ℤ) → (i +ℤ j) +ℤ k ≡ i +ℤ (j +ℤ k)
unfolding ◌+ℤ◌
add_assoc (pos a) (pos b) (pos c) = ground arith
add_assoc (pos a) (pos b) (negsuc c) = ground arith
add_assoc (pos a) (negsuc b) (pos c) = ground arith
add_assoc (pos a) (negsuc b) (negsuc c) = ground arith
add_assoc (negsuc a) (pos b) (pos c) = ground arith
add_assoc (negsuc a) (pos b) (negsuc c) = ground arith
add_assoc (negsuc a) (negsuc b) (pos c) = ground arith
add_assoc (negsuc a) (negsuc b) (negsuc c) = ground arith

pub sub_nonneg : (i j : ℤ) → lebℤ i j ≡ true → lebℤ (pos 0) (j +ℤ negℤ i) ≡ true
unfolding ◌+ℤ◌ negℤ
sub_nonneg (pos a) (pos b) h = ground arith
sub_nonneg (pos a) (negsuc b) h = ground arith
sub_nonneg (negsuc a) (pos b) h = ground arith
sub_nonneg (negsuc a) (negsuc b) h = ground arith
