-- ===== src/Base/Strip.antt =====
-- What `strip` leaves.
use Prim.Native.Nat.{ℕ}
use mathlib.Core.Path.{◌≡◌, refl, sym, ap, ◌∙◌}
use mathlib.Core.Logic.{inl, inr}
use mathlib.Core.Bool.{Bool, false}
use mathlib.Core.List.{[], ◌∷◌, ◌++◌, map, reverse, reverse-cons, reverse-append, reverse-reverse}
use stayturgid.Base.Tests.{Bool-cases}
use stayturgid.Base.Texts.{Text, strip_left, strip_chars}

-- A text is empty, or begins with a character that fails the test.
abbrev pub StartsOutside : (ℕ → Bool) → Text → Type 0
StartsOutside p [] = Unit
StartsOutside p (c ∷ s) = p c ≡ false

strip_left-StartsOutside : (p : ℕ → Bool) (s : Text) → StartsOutside p (strip_left p s)
strip_left-StartsOutside p [] = tt
strip_left-StartsOutside p (c ∷ s) = elim (Bool-cases (p c)) [
  | inl e ↦ rw (e, strip_left, StartsOutside) (strip_left-StartsOutside p s)
  | inr e ↦ rw (e, strip_left, StartsOutside) e
]

strip_left-append_kept :
    (p : ℕ → Bool) (s : Text) (c : ℕ)
    → p c ≡ false
    → (t : Text) × (strip_left p (s ++ c ∷ []) ≡ t ++ c ∷ [])
strip_left-append_kept p [] c e = ([], rw e)
strip_left-append_kept p (d ∷ s) c e = elim (Bool-cases (p d)) [
  | inl out ↦ rw out (strip_left-append_kept p s c e)
  | inr kept ↦ (d ∷ s, rw kept)
]

strip_right-StartsOutside :
    (p : ℕ → Bool) (s : Text)
    → StartsOutside p s
    → StartsOutside p (reverse (strip_left p (reverse s)))
strip_right-StartsOutside p [] h = tt
strip_right-StartsOutside p (c ∷ s) h =
    let (t, e) = strip_left-append_kept p (reverse s) c h in rw (reverse-cons, e, reverse-append) h

pub strip_chars-StartsOutside : (p : ℕ → Bool) (s : Text) → StartsOutside p (strip_chars p s)
strip_chars-StartsOutside p s =
    strip_right-StartsOutside p (strip_left p s) (strip_left-StartsOutside p s)

strip_left-fixed : (p : ℕ → Bool) (s : Text) → StartsOutside p s → strip_left p s ≡ s
strip_left-fixed p [] h = refl
strip_left-fixed p (c ∷ s) h = rw (h, strip_left)

pub strip_chars-strip_chars :
    (p : ℕ → Bool) (s : Text) → strip_chars p (strip_chars p s) ≡ strip_chars p s
strip_chars-strip_chars p s =
    let r = strip_left p (reverse (strip_left p s)) in
    rw (
      strip_left-fixed p (reverse r) (strip_chars-StartsOutside p s),
      reverse-reverse r,
      strip_left-fixed p r (strip_left-StartsOutside p (reverse (strip_left p s))),
    )

strip_left-map :
    (p : ℕ → Bool) (f : ℕ → ℕ)
    → ((c : ℕ) → p (f c) ≡ p c)
    → (s : Text) → strip_left p (map f s) ≡ map f (strip_left p s)
strip_left-map p f h [] = refl
strip_left-map p f h (c ∷ s) = elim (Bool-cases (p c)) [
  | inl out ↦ rw (h c, out, strip_left) (strip_left-map p f h s)
  | inr kept ↦ rw (h c, kept, strip_left)
]

map-append : (f : ℕ → ℕ) (s t : Text) → map f (s ++ t) ≡ map f s ++ map f t
map-append f [] t = refl
map-append f (c ∷ s) t = ap (◌∷◌ (f c)) (map-append f s t)

map-reverse : (f : ℕ → ℕ) (s : Text) → map f (reverse s) ≡ reverse (map f s)
map-reverse f [] = refl
map-reverse f (c ∷ s) = rw (
  reverse-cons c s,
  reverse-cons (f c) (map f s),
  map-append f (reverse s) (c ∷ []),
  map-reverse f s,
)

-- A change of characters that the test does not see may come before or after.
pub strip_chars-map :
    (p : ℕ → Bool) (f : ℕ → ℕ)
    → ((c : ℕ) → p (f c) ≡ p c)
    → (s : Text) → strip_chars p (map f s) ≡ map f (strip_chars p s)
strip_chars-map p f h s =
    ap (λ t. reverse (strip_left p (reverse t))) (strip_left-map p f h s)
    ∙ ap (λ t. reverse (strip_left p t)) (sym (map-reverse f (strip_left p s)))
    ∙ ap reverse (strip_left-map p f h (reverse (strip_left p s)))
    ∙ sym (map-reverse f (strip_left p (reverse (strip_left p s))))
