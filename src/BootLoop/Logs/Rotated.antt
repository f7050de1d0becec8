-- ===== src/BootLoop/Logs/Rotated.antt =====
-- What a rotation leaves.
use stayturgid.Base.{
  ℕ, ◌≤◌, ◌≡◌, ◌≢◌, refl, sym, ap, ◌∙◌, inl, inr, ◌⊎◌, Bool, true, false, Option, none, some, List,
  [], ◌∷◌, ◌++◌, Text, text_eq, text_eq_iff, leb, leb→le, length, All, Bool-cases, Option-cases,
  get, In, here, there,
}
use mathlib.Core.List.{append_cancel_right}
use mathlib.Core.Path.{subst}
use stayturgid.BootLoop.Logs.{
  Node, file, other, Directory, suffix, is_rotated, rename, rotate_file, rotate_files, names_of,
  log_limit, rotate_logs,
}
use stayturgid.BootLoop.Logs.Moves.{
  text_ne, text_distinct, ne_suffix, moved, get-moved_other, get-moved, moved_found, rename-cases,
  rotate_file-IsMove,
}

-- A file is still there, or stands whole under its rotated name.
abbrev pub Kept : Text → List ℕ → Directory → Type 0
Kept n bytes d =
    (get n d ≡ some (file bytes)) ⊎ ((get n d ≡ none) × (get (n ++ suffix) d ≡ some (file bytes)))

moved_same-Kept :
    (n : Text) (b bytes : List ℕ) (d : Directory)
    → is_rotated n ≡ false
    → get n d ≡ some (file b)
    → Kept n bytes d
    → Kept n bytes (moved n b d)
moved_same-Kept n b bytes d h at_n (inl k) =
    inr (get-moved n b d h, moved_found n b d ∙ sym at_n ∙ k)
moved_same-Kept n b bytes d h at_n (inr (gone, _)) = absurd (cc (gone, at_n))

moved-Kept :
    (m n : Text) (b bytes : List ℕ) (d : Directory)
    → get m d ≡ some (file b)
    → is_rotated m ≡ false
    → is_rotated n ≡ false
    → Kept n bytes d
    → Kept n bytes (moved m b d)
moved-Kept m n b bytes d at_m hm hn k = elim (Bool-cases (text_eq m n)) [
  | inl same ↦
      let e = (text_eq_iff m n).0 same in
      subst (λ x. Kept n bytes (moved x b d)) (sym e)
        (moved_same-Kept n b bytes d hn (subst (λ x. get x d ≡ some (file b)) e at_m) k)
  | inr ne ↦
      let near = get-moved_other m n b d (text_ne (m ++ suffix) n (ne_suffix m n hn)) ne in
      let far =
        get-moved_other m (n ++ suffix) b d
          (text_ne (m ++ suffix) (n ++ suffix)
            (λ e. text_distinct m n ne (append_cancel_right m n suffix e)))
          (text_ne m (n ++ suffix) (λ e. ne_suffix n m hm (sym e))) in
      elim k [ inl h ↦ inl (near ∙ h) | inr (h, g) ↦ inr (near ∙ h, far ∙ g) ]
]

-- A directory whose rotated names hold files only.
abbrev pub IsClear : Directory → Type 0
IsClear d = (n : Text) → get (n ++ suffix) d ≢ some other

moved-IsClear :
    (m : Text) (b : List ℕ) (d : Directory)
    → is_rotated m ≡ false
    → IsClear d
    → IsClear (moved m b d)
moved-IsClear m b d hm h n e = elim (Bool-cases (text_eq (m ++ suffix) (n ++ suffix))) [
  | inl same ↦
      let f = (text_eq_iff (m ++ suffix) (n ++ suffix)).0 same in
      cc (moved_found m b d, ap (λ x. get x (moved m b d)) f, e)
  | inr differ ↦ h n (
      sym (
        get-moved_other m (n ++ suffix) b d differ
          (text_ne m (n ++ suffix) (λ f. ne_suffix n m hm (sym f))))
      ∙ e)
]

-- A file of the name is within the limit.
abbrev Small : ℕ → Text → Directory → Type 0
Small limit n d = (b : List ℕ) → get n d ≡ some (file b) → length b ≤ limit

moved-Small :
    (limit : ℕ) (m n : Text) (b : List ℕ) (d : Directory)
    → is_rotated n ≡ false
    → Small limit n d
    → Small limit n (moved m b d)
moved-Small limit m n b d hn h c e = elim (Bool-cases (text_eq m n)) [
  | inl same ↦
      let f = (text_eq_iff m n).0 same in
      absurd (cc (ap (λ x. get n (moved x b d)) f, get-moved n b d hn, e))
  | inr ne ↦ h c (sym (get-moved_other m n b d (text_ne (m ++ suffix) n (ne_suffix m n hn)) ne) ∙ e)
]

rotate_file-Small :
    (refuses : Text → Bool) (limit : ℕ) (n : Text) (d : Directory)
    → is_rotated n ≡ false
    → refuses n ≡ false
    → IsClear d
    → Small limit n (rotate_file refuses limit n d)
unfolding rotate_file
rotate_file-Small refuses limit n d hn open_name clear c e = elim (Option-cases (get n d)) [
  | inl gone ↦ absurd (cc (rw (hn, gone) at e, gone))
  | inr (other, at_n) ↦ absurd (cc (rw (hn, at_n) at e, at_n))
  | inr (file b, at_n) ↦ elim (Bool-cases (leb (length b) limit)) [
    | inl fits ↦
        let same : rotate_file refuses limit n d ≡ d = rw (rotate_file, hn, at_n, fits) refl in
        let whole : b ≡ c = cc (ap (get n) same, e, at_n) in
        leb→le (length c) limit (subst (λ x. leb (length x) limit ≡ true) whole fits)
    | inr big ↦
        let gone : rotate_file refuses limit n d ≡ rename n b d =
          rw (rotate_file, hn, at_n, big, open_name) refl in
        absurd (elim (rename-cases n b d) [
          | inl (_, blocked) ↦ clear n blocked
          | inr new ↦ cc (ap (get n) (gone ∙ new), get-moved n b d hn, e)
        ])
  ]
]

-- What every step of the loop keeps, the whole loop keeps.
rotate_files-keeps :
    (P : Directory → Type 0) (refuses : Text → Bool) (limit : ℕ) (names : List Text) (d : Directory)
    → ((m : Text) (b : List ℕ) (c : Directory)
        → get m c ≡ some (file b)
        → is_rotated m ≡ false
        → P c
        → P (moved m b c))
    → P d
    → P (rotate_files refuses limit names d)
unfolding rotate_files
rotate_files-keeps P refuses limit [] d step h = h
rotate_files-keeps P refuses limit (m ∷ names) d step h =
    rotate_files-keeps P refuses limit names (rotate_file refuses limit m d) step
      (elim (rotate_file-IsMove refuses limit m d) [
        | inl same ↦ subst P (sym same) h
        | inr (b, at_m, new, gone) ↦ subst P (sym gone) (step m b d at_m new h)
      ])

rotate_file-IsClear :
    (refuses : Text → Bool) (limit : ℕ) (m : Text) (d : Directory)
    → IsClear d
    → IsClear (rotate_file refuses limit m d)
rotate_file-IsClear refuses limit m d h = elim (rotate_file-IsMove refuses limit m d) [
  | inl same ↦ subst IsClear (sym same) h
  | inr (b, at_m, new, gone) ↦ subst IsClear (sym gone) (moved-IsClear m b d new h)
]

rotate_files-Small :
    (refuses : Text → Bool) (limit : ℕ) (names : List Text) (n : Text) (d : Directory)
    → is_rotated n ≡ false
    → refuses n ≡ false
    → IsClear d
    → In n names
    → Small limit n (rotate_files refuses limit names d)
unfolding rotate_files
rotate_files-Small refuses limit [] n d hn free clear i = elim i [ ]
rotate_files-Small refuses limit (m ∷ names) n d hn free clear here =
    rotate_files-keeps (Small limit n) refuses limit names (rotate_file refuses limit n d)
      (λ m b c at_m new h. moved-Small limit m n b c hn h)
      (rotate_file-Small refuses limit n d hn free clear)
rotate_files-Small refuses limit (m ∷ names) n d hn free clear (there i) =
    rotate_files-Small refuses limit names n (rotate_file refuses limit m d) hn free
      (rotate_file-IsClear refuses limit m d clear) i

names_of-In : (n : Text) (d : Directory) {x : Node} → get n d ≡ some x → In n (names_of d)
unfolding get
names_of-In n [] h = absurd (cc h)
names_of-In n ((m, y) ∷ d) h = elim (Bool-cases (text_eq m n)) [
  | inl same ↦ subst (λ k. In k (m ∷ names_of d)) ((text_eq_iff m n).0 same) here
  | inr differ ↦ there (names_of-In n d (rw differ at h))
]

rotate_all-Small :
    (refuses : Text → Bool) (limit : ℕ) (n : Text) (d : Directory)
    → is_rotated n ≡ false
    → refuses n ≡ false
    → IsClear d
    → Small limit n (rotate_files refuses limit (names_of d) d)
rotate_all-Small refuses limit n d hn free clear = elim (Option-cases (get n d)) [
  | inl none_there ↦
      rotate_files-keeps (Small limit n) refuses limit (names_of d) d
        (λ m b c at_m new h. moved-Small limit m n b c hn h) (λ b e. absurd (cc (none_there, e)))
  | inr (x, e) ↦ rotate_files-Small refuses limit (names_of d) n d hn free clear (names_of-In n d e)
]

rotate_logs-files :
    (setting : Option Text) (refuses : Text → Bool) (d : Directory) (limit : ℕ)
    → log_limit setting ≡ some limit
    → rotate_logs setting refuses false d ≡ rotate_files refuses limit (names_of d) d
unfolding rotate_logs
rotate_logs-files setting refuses d limit e = rw (rotate_logs, e) refl

-- After a rotation a log that could be renamed is within the limit, where the rotated names hold files
-- only.
pub rotate_logs-length :
    (setting : Option Text) (refuses : Text → Bool) (d : Directory) (limit : ℕ) (n : Text)
    (bytes : List ℕ)
    → log_limit setting ≡ some limit
    → is_rotated n ≡ false
    → refuses n ≡ false
    → IsClear d
    → get n (rotate_logs setting refuses false d) ≡ some (file bytes)
    → length bytes ≤ limit
rotate_logs-length setting refuses d limit n bytes e hn free clear h =
    rotate_all-Small refuses limit n d hn free clear bytes
      (ap (get n) (sym (rotate_logs-files setting refuses d limit e)) ∙ h)

-- A log is after a rotation what it was, or is gone and stands whole under its rotated name.
pub rotate_logs-Kept :
    (setting : Option Text) (refuses : Text → Bool) (unlisted : Bool) (d : Directory) (n : Text)
    (bytes : List ℕ)
    → is_rotated n ≡ false
    → get n d ≡ some (file bytes)
    → Kept n bytes (rotate_logs setting refuses unlisted d)
unfolding rotate_logs
rotate_logs-Kept setting refuses unlisted d n bytes hn h = elim (Option-cases (log_limit setting)) [
  | inl off ↦ rw (rotate_logs, off) (inl h)
  | inr (limit, e) ↦ elim (Bool-cases unlisted) [
    | inl no_list ↦ rw (rotate_logs, e, no_list) (inl h)
    | inr listed ↦
        rw (rotate_logs, e, listed)
          (rotate_files-keeps (Kept n bytes) refuses limit (names_of d) d
            (λ m b c at_m new k. moved-Kept m n b bytes c at_m new hn k) (inl h))
  ]
]

pub only_files-IsClear :
    (d : Directory) → All (λ e. (bytes : List ℕ) × (e.1 ≡ file bytes)) d → IsClear d
unfolding get
only_files-IsClear [] h n e = cc e
only_files-IsClear ((m, x) ∷ d) h n e = elim (Bool-cases (text_eq m (n ++ suffix))) [
  | inl same ↦ cc (rw same at e, h.0.1)
  | inr differ ↦ only_files-IsClear d h.1 n (rw differ at e)
]
