-- ===== src/BootLoop/Logs/Moves.antt =====
-- One step of a rotation: it leaves the directory or moves one file.
use stayturgid.Base.{
  ℕ, ◌≡◌, ◌≢◌, refl, ap, ◌∙◌, inl, inr, ◌⊎◌, Bool, true, false, ◌||◌, none, some, List, ◌++◌, Text,
  text_eq, text_eq_refl, text_eq_iff, leb, length, Bool-cases, Option-cases, get, assign, discard,
  get-assign, get-discard,
}
use mathlib.Core.List.{reverse-append}
use stayturgid.BootLoop.Logs.{file, other, Directory, suffix, is_rotated, rename, rotate_file}

is_rotated-suffix : (name : Text) → is_rotated (name ++ suffix) ≡ true
unfolding is_rotated
is_rotated-suffix name = rw (is_rotated, reverse-append name suffix) refl

pub text_ne : (s t : Text) → s ≢ t → text_eq s t ≡ false
text_ne s t h = elim (Bool-cases (text_eq s t)) [
  | inl same ↦ absurd (h ((text_eq_iff s t).0 same))
  | inr differ ↦ differ
]

pub text_distinct : (s t : Text) → text_eq s t ≡ false → s ≢ t
text_distinct s t h e = cc (h, (text_eq_iff s t).1 e)

-- A name that is no rotated one is not the suffixed name of another.
pub ne_suffix : (m n : Text) → is_rotated n ≡ false → m ++ suffix ≢ n
ne_suffix m n h e = cc (is_rotated-suffix m, ap is_rotated e, h)

-- The directory after a rename that succeeds.
abbrev pub moved : Text → List ℕ → Directory → Directory
moved name bytes d = assign (name ++ suffix) (file bytes) (discard name d)

pub get-moved_other :
    (m n : Text) (b : List ℕ) (d : Directory)
    → text_eq (m ++ suffix) n ≡ false
    → text_eq m n ≡ false
    → get n (moved m b d) ≡ get n d
get-moved_other m n b d far ne =
    get-assign (m ++ suffix) n (file b) (discard m d) ∙ rw (far, get-discard m n d, ne) refl

pub get-moved :
    (n : Text) (b : List ℕ) (d : Directory) → is_rotated n ≡ false → get n (moved n b d) ≡ none
get-moved n b d h =
    get-assign (n ++ suffix) n (file b) (discard n d)
    ∙ rw (text_ne (n ++ suffix) n (ne_suffix n n h), get-discard n n d, text_eq_refl n) refl

pub moved_found :
    (n : Text) (b : List ℕ) (d : Directory) → get (n ++ suffix) (moved n b d) ≡ some (file b)
moved_found n b d =
    get-assign (n ++ suffix) (n ++ suffix) (file b) (discard n d)
    ∙ rw (text_eq_refl (n ++ suffix)) refl

-- A step of the loop leaves the directory, or moves a file that is no rotated one.
abbrev IsMove : Text → Directory → Directory → Type 0
IsMove m d d' =
    (d' ≡ d)
    ⊎ ((b : List ℕ) × (get m d ≡ some (file b)) × (is_rotated m ≡ false) × (d' ≡ moved m b d))

pub rename-cases :
    (m : Text) (b : List ℕ) (d : Directory)
    → ((rename m b d ≡ d) × (get (m ++ suffix) d ≡ some other)) ⊎ (rename m b d ≡ moved m b d)
unfolding rename
rename-cases m b d = elim (Option-cases (get (m ++ suffix) d)) [
  | inl e ↦ inr (rw (rename, e) refl)
  | inr (file old, e) ↦ inr (rw (rename, e) refl)
  | inr (other, e) ↦ inl (rw (rename, e) refl, e)
]

pub rotate_file-IsMove :
    (refuses : Text → Bool) (limit : ℕ) (m : Text) (d : Directory)
    → IsMove m d (rotate_file refuses limit m d)
unfolding rotate_file
rotate_file-IsMove refuses limit m d = elim (Bool-cases (is_rotated m)) [
  | inl old ↦ inl (rw old refl)
  | inr new ↦ elim (Option-cases (get m d)) [
    | inl e ↦ inl (rw (new, e) refl)
    | inr (other, e) ↦ inl (rw (new, e) refl)
    | inr (file b, e) ↦ elim (Bool-cases (leb (length b) limit || refuses m)) [
      | inl keep ↦ inl (rw (new, e, keep) refl)
      | inr go ↦ elim (rename-cases m b d) [
        | inl (same, _) ↦ inl (rw (new, e, go) same)
        | inr gone ↦ inr (b, e, new, rw (new, e, go) gone)
      ]
    ]
  ]
]
