-- ===== src/Repair/Profiles/Settled.antt =====
-- That one pass repairs the profiles for good.
use stayturgid.Base.{
  ◌≡◌, refl, inl, inr, true, false, List, [], ◌∷◌, All, Text, Bool-cases, if◌then◌else◌,
}
use stayturgid.Repair.Profiles.{
  Profile, absent, unreadable, lines, is_broken, path_line, fix_lines, fix_profile, fix_profiles,
  any_file, up, skip, ensure_shell_profile_path,
}

-- No line sets a path of the Mac.
abbrev pub IsSound : Profile → Type 0
IsSound absent = Unit
IsSound unreadable = Unit
IsSound (lines old writable) = All (λ l. is_broken l ≡ false) old

abbrev pub IsWritable : Profile → Type 0
IsWritable absent = Unit
IsWritable unreadable = Unit
IsWritable (lines old writable) = writable ≡ true

module _ (prefix : Text) (sound : is_broken (path_line prefix) ≡ false) where
  fix_lines-All : (old : List Text) → All (λ l. is_broken l ≡ false) (fix_lines prefix old).0
  unfolding fix_lines
  fix_lines-All [] = tt
  fix_lines-All (l ∷ old) = elim (Bool-cases (is_broken l)) [
    | inl bad ↦ rw (fix_lines, bad) (sound, fix_lines-All old)
    | inr good ↦ rw (fix_lines, good) (good, fix_lines-All old)
  ]

  unchanged-All :
      (old : List Text) → (fix_lines prefix old).1 ≡ false → All (λ l. is_broken l ≡ false) old
  unfolding fix_lines
  unchanged-All [] h = tt
  unchanged-All (l ∷ old) h = elim (Bool-cases (is_broken l)) [
    | inl bad ↦ absurd (cc (rw (fix_lines, bad) at h))
    | inr good ↦ (good, unchanged-All old (rw (fix_lines, good) at h))
  ]

  fix_profile-IsSound : (p : Profile) → IsWritable p → IsSound (fix_profile prefix p).0
  unfolding fix_profile
  fix_profile-IsSound absent h = tt
  fix_profile-IsSound unreadable h = tt
  fix_profile-IsSound (lines old writable) h = elim (Bool-cases (fix_lines prefix old).1) [
    | inl changed ↦ rw (changed, h) (fix_lines-All old)
    | inr same ↦ rw same (unchanged-All old same)
  ]

  fix_profiles-IsSound :
      (ps : List Profile) → All IsWritable ps → All IsSound (fix_profiles prefix ps).0
  unfolding fix_profiles
  fix_profiles-IsSound [] h = tt
  fix_profiles-IsSound (p ∷ ps) h = (fix_profile-IsSound p h.0, fix_profiles-IsSound ps h.1)

fix_lines_sound :
    (prefix : Text) (old : List Text)
    → All (λ l. is_broken l ≡ false) old
    → (fix_lines prefix old).1 ≡ false
unfolding fix_lines
fix_lines_sound prefix [] h = refl
fix_lines_sound prefix (l ∷ old) h = rw (fix_lines, h.0) (fix_lines_sound prefix old h.1)

fix_profile_sound : (prefix : Text) (p : Profile) → IsSound p → fix_profile prefix p ≡ (p, false)
unfolding fix_profile
fix_profile_sound prefix absent h = refl
fix_profile_sound prefix unreadable h = refl
fix_profile_sound prefix (lines old writable) h =
    rw (fix_profile, fix_lines_sound prefix old h) refl

fix_profiles_sound :
    (prefix : Text) (ps : List Profile) → All IsSound ps → fix_profiles prefix ps ≡ (ps, false)
unfolding fix_profiles
fix_profiles_sound prefix [] h = refl
fix_profiles_sound prefix (p ∷ ps) h =
    rw (fix_profiles, fix_profile_sound prefix p h.0, fix_profiles_sound prefix ps h.1) refl

-- After one pass over profiles that can be written no line sets a path of the Mac, and a second pass
-- changes nothing and reports no repair, if the line that it writes sets none itself.
pub ensure_shell_profile_path-twice :
    (prefix : Text) (ps : List Profile)
    → is_broken (path_line prefix) ≡ false
    → All IsWritable ps
    → All IsSound (ensure_shell_profile_path prefix ps).0
      × (ensure_shell_profile_path prefix (ensure_shell_profile_path prefix ps).0 ≡ (
        (ensure_shell_profile_path prefix ps).0,
        if any_file (ensure_shell_profile_path prefix ps).0 then up else skip,
      ))
unfolding ensure_shell_profile_path
ensure_shell_profile_path-twice prefix ps sound h =
    let done = fix_profiles-IsSound prefix sound ps h in
    (done, rw (fix_profiles_sound prefix (fix_profiles prefix ps).0 done) refl)
