-- ===== src/Lease/Key/Safe.antt =====
-- The keys of `device_key` as file names.
use stayturgid.Base.{
  ℕ, ◌≤◌, ◌≡◌, refl, Bool, true, false, [], ◌∷◌, map, reverse, arith, All, All-append, All-take,
  length, length-take-le, take, Text, strip_left, strip_chars, or_else, codes,
  strip_chars-StartsOutside, StartsOutside,
}
use mathlib.Core.List.{reverse-cons}
use stayturgid.Lease.Key.{is_key_char, key_char, is_key_edge, unknown, max_key, folded, device_key}

abbrev KeyChar : ℕ → Type 0
KeyChar c = is_key_char c ≡ true

map-key_char-All : (s : Text) → All KeyChar (map key_char s)
map-key_char-All [] = tt
map-key_char-All (c ∷ s) = (ground arith, map-key_char-All s)

strip_left-All {κ} : (P : ℕ → Type κ) (p : ℕ → Bool) (s : Text) → All P s → All P (strip_left p s)
strip_left-All P p [] h = h
strip_left-All P p (c ∷ s) h =
    elim (p c) as (λ b. All P (elim b [ true ↦ strip_left p s | false ↦ c ∷ s ])) [
      | true ↦ strip_left-All P p s h.1
      | false ↦ h
    ]

reverse-All {κ} : (P : ℕ → Type κ) (s : Text) → All P s → All P (reverse s)
reverse-All P [] h = h
reverse-All P (c ∷ s) h =
    rw reverse-cons (All-append P (reverse s) (c ∷ []) (reverse-All P s h.1) (h.0, tt))

strip_chars-All {κ} : (P : ℕ → Type κ) (p : ℕ → Bool) (s : Text) → All P s → All P (strip_chars p s)
strip_chars-All P p s h = reverse-All P (strip_left p (reverse (strip_left p s))) (
    strip_left-All P p (reverse (strip_left p s))
      (reverse-All P (strip_left p s) (strip_left-All P p s h)))

-- What makes a key usable as a file name: it has 1 to 120 characters, all of them letters, digits,
-- `-`, `_` or `.`, and it begins with neither `.` nor `_`.
pub record IsFileName (s : Text) : Type 0 where
  pub chars : All (λ c. is_key_char c ≡ true) s
  pub short : length s ≤ 120
  pub start : (c : ℕ) × (rest : Text) × (s ≡ c ∷ rest) × (is_key_edge c ≡ false)

take-IsFileName :
    (s : Text)
    → All KeyChar s
    → StartsOutside is_key_edge s
    → IsFileName (take max_key (or_else s unknown))
take-IsFileName [] all out = record {
  chars = (refl, (refl, (refl, (refl, (refl, (refl, (refl, tt)))))));
  short = omega arith;
  start = (b'u', codes "nknown", refl, refl);
}
take-IsFileName (c ∷ s) all out = record {
  chars = All-take KeyChar max_key (c ∷ s) all;
  short = length-take-le max_key (c ∷ s);
  start = (c, take 119 s, refl, out);
}

-- Every device name, the empty one too, has a key that is a file name: it holds no `/`, and is
-- neither `.` nor `..` nor a hidden file.
pub device_key-IsFileName : (device : Text) → IsFileName (device_key device)
unfolding device_key
device_key-IsFileName device =
    let s = map key_char (folded (or_else device unknown)) in
    take-IsFileName (strip_chars is_key_edge s)
      (strip_chars-All KeyChar is_key_edge s (map-key_char-All (folded (or_else device unknown))))
      (strip_chars-StartsOutside is_key_edge s)
