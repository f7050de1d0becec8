-- ===== src/Base/Texts.antt =====
-- Text as the list of its code points. `strip`, `lower` and `isalnum` are Python's on ASCII text.
use Prim.Native.Nat.{ℕ, ◌+◌}
use Prim.Native.Char.{code}
use Prim.Native.String.{String}
use mathlib.Core.Path.{◌≡◌, refl}
use mathlib.Core.Logic.{◌↔◌}
use mathlib.Core.Bool.{Bool, true, false, ◌&&◌, ◌||◌}
use mathlib.Core.Option.{Option, none, some}
use mathlib.Core.List.{List, [], ◌∷◌, map, reverse}
use native.Mathlib.Omega.{arith}
use stayturgid.Base.Tests.{ltb, leb, ◌==◌, if◌then◌else◌}

abbrev pub Text : Type 0
Text = List ℕ

-- The text of a literal.
abbrev pub codes : String → Text
codes String.[] = []
codes (String.◌∷◌ c s) = code c ∷ codes s

abbrev pub text_eq : Text → Text → Bool
text_eq [] [] = true
text_eq [] (d ∷ t) = false
text_eq (c ∷ s) [] = false
text_eq (c ∷ s) (d ∷ t) = c == d && text_eq s t

pub text_eq_iff : (s t : Text) → (text_eq s t ≡ true) ↔ (s ≡ t)
text_eq_iff [] [] = ground arith
text_eq_iff [] (d ∷ t) = ground arith
text_eq_iff (c ∷ s) [] = ground arith
text_eq_iff (c ∷ s) (d ∷ t) = ground (arith, text_eq_iff s t)

pub text_eq_refl : (s : Text) → text_eq s s ≡ true
text_eq_refl s = (text_eq_iff s s).1 refl

abbrev pub is_empty : Text → Bool
is_empty [] = true
is_empty (c ∷ s) = false

-- Python's `a or b` on texts: the empty text is false.
abbrev pub or_else : Text → Text → Text
or_else s t = if is_empty s then t else s

abbrev pub member : Text → List Text → Bool
member s [] = false
member s (t ∷ ts) = text_eq t s || member s ts

-- `set & set` is not empty.
abbrev pub intersects : List Text → List Text → Bool
intersects [] ts = false
intersects (s ∷ ss) ts = member s ts || intersects ss ts

-- `str.lower` of an ASCII character.
abbrev pub lower_char : ℕ → ℕ
lower_char c = if leb b'A' c && leb c b'Z' then c + 32 else c

abbrev pub lower : Text → Text
lower = map lower_char

-- `str.isalnum` of an ASCII character.
abbrev pub is_alnum : ℕ → Bool
is_alnum c = leb b'0' c && leb c b'9' || leb b'A' c && leb c b'Z' || leb b'a' c && leb c b'z'

-- `str.isspace` of an ASCII character.
abbrev pub is_space : ℕ → Bool
is_space c = c == 32 || leb 9 c && leb c 13 || leb 28 c && leb c 31

abbrev pub strip_left : (ℕ → Bool) → Text → Text
strip_left p [] = []
strip_left p (c ∷ s) = elim (p c) [ true ↦ strip_left p s | false ↦ c ∷ s ]

-- `str.strip`, of the characters that pass the test.
abbrev pub strip_chars : (ℕ → Bool) → Text → Text
strip_chars p s = reverse (strip_left p (reverse (strip_left p s)))

abbrev pub strip : Text → Text
strip = strip_chars is_space

-- What stands after the prefix, if the text begins with it.
abbrev pub after_prefix : Text → Text → Option Text
after_prefix [] s = some s
after_prefix (c ∷ p) [] = none
after_prefix (c ∷ p) (d ∷ s) = let rest = after_prefix p s in if c == d then rest else none

-- `<` on texts, as Python orders them: by the first difference.
abbrev pub text_lt : Text → Text → Bool
text_lt s [] = false
text_lt [] (d ∷ t) = true
text_lt (c ∷ s) (d ∷ t) = if c == d then text_lt s t else ltb c d

pub text_lt_irrefl : (s : Text) → text_lt s s ≡ false
text_lt_irrefl [] = refl
text_lt_irrefl (c ∷ s) = ground (arith, text_lt_irrefl s)

pub text_lt_trans : (s t u : Text) → text_lt s t ≡ true → text_lt t u ≡ true → text_lt s u ≡ true
text_lt_trans s t [] h k = cc
text_lt_trans s [] (e ∷ u) h k = cc
text_lt_trans [] (d ∷ t) (e ∷ u) h k = refl
text_lt_trans (c ∷ s) (d ∷ t) (e ∷ u) h k = ground (arith, text_lt_trans s t u)

pub text_lt_total : (s t : Text) → text_eq s t ≡ false → text_lt s t ≡ false → text_lt t s ≡ true
text_lt_total [] [] e h = cc
text_lt_total [] (d ∷ t) e h = cc
text_lt_total (c ∷ s) [] e h = refl
text_lt_total (c ∷ s) (d ∷ t) e h = ground (arith, text_lt_total s t)
