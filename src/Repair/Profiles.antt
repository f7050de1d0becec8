-- ===== src/Repair/Profiles.antt =====
-- `ensure_shell_profile_path` of device/termux/py/stayturgid_repair.py.
pub mod Settled
use stayturgid.Base.{
  ℕ, Bool, true, false, ◌||◌, ◌&&◌, List, [], ◌∷◌, ◌++◌, Text, codes, strip, if◌then◌else◌, Option,
  none, some, after_prefix,
}
use stayturgid.BatteryUse.Report.{occurs}

-- A profile: no regular file, one that cannot be read as text, or its lines, and whether it can be
-- written.
pub data Profile : Type 0 where
  absent : Profile
  unreadable : Profile
  lines : List Text → Bool → Profile

abbrev starts : Text → Text → Bool
starts p s = elim (after_prefix p s) [ none ↦ false | some rest ↦ true ]

-- `any(kw in stripped for kw in MAC_PATH_KEYWORDS)`
abbrev has_mac_path : Text → Bool
has_mac_path s =
    occurs (codes "/Users/") s
    || occurs (codes "/opt/homebrew/") s
    || occurs (codes "/Library/Apple/") s
    || occurs (codes "/System/Cryptexes/") s

unfoldable pub is_broken : Text → Bool
is_broken line =
    let s = strip line in
    (starts (codes "export PATH=") s || starts (codes "PATH=") s) && has_mac_path s

-- The line that replaces a broken one, with the directory of Termux.
unfoldable pub path_line : Text → Text
path_line prefix =
    codes "export PATH="
    ++ b'"'
      ∷ (codes "$HOME/bin:"
          ++ (prefix ++ (codes "/bin:" ++ (prefix ++ (codes "/sbin:$PATH" ++ b'"' ∷ 10 ∷ [])))))

-- The new lines, and whether one was replaced.
unfoldable pub fix_lines : Text → List Text → List Text × Bool
fix_lines prefix [] = ([], false)
fix_lines prefix (line ∷ rest) =
    let (new, changed) = fix_lines prefix rest in
    if is_broken line then (path_line prefix ∷ new, true) else (line ∷ new, changed)

-- The profile after it, and whether it was fixed.
unfoldable pub fix_profile : Text → Profile → Profile × Bool
fix_profile prefix absent = (absent, false)
fix_profile prefix unreadable = (unreadable, false)
fix_profile prefix (lines old writable) =
    let (new, changed) = fix_lines prefix old in
    if changed && writable then (lines new writable, true) else (lines old writable, false)

unfoldable pub fix_profiles : Text → List Profile → List Profile × Bool
fix_profiles prefix [] = ([], false)
fix_profiles prefix (p ∷ ps) =
    let (p', fixed) = fix_profile prefix p in
    let (ps', more) = fix_profiles prefix ps in (p' ∷ ps', fixed || more)

abbrev is_file : Profile → Bool
is_file absent = false
is_file unreadable = true
is_file (lines old writable) = true

unfoldable pub any_file : List Profile → Bool
any_file [] = false
any_file (p ∷ ps) = is_file p || any_file ps

pub data Result : Type 0 where
  repaired up : Result
  skip : Result

unfoldable pub ensure_shell_profile_path : Text → List Profile → List Profile × Result
ensure_shell_profile_path prefix ps =
    let (ps', fixed) = fix_profiles prefix ps in
    (ps', if fixed then repaired else if any_file ps' then up else skip)
