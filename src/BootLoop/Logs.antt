-- ===== src/BootLoop/Logs.antt =====
-- `_rotate_logs` of device/termux/py/start_adb.py, on one directory.
pub mod Moves
pub mod Rotated
use stayturgid.Base.{
  ℕ, zero, ◌+◌, ◌*◌, Bool, true, false, not, ◌||◌, ◌&&◌, Option, none, some, List, [], ◌∷◌, ◌++◌,
  reverse, Text, codes, leb, length, if◌then◌else◌, after_prefix, Dict, get, assign, discard, ℤ,
  pos, negsuc, int_of,
}

-- A regular file with its bytes, or something else that has a name.
pub data Node : Type 0 where
  file : List ℕ → Node
  other : Node

abbrev pub Directory : Type 0
Directory = Dict Node

abbrev pub suffix : Text
suffix = codes ".1"

-- `name.endswith(".1")`
unfoldable pub is_rotated : Text → Bool
is_rotated name = elim (after_prefix (reverse suffix) (reverse name)) [
  | none ↦ false
  | some rest ↦ true
]

abbrev pub log_max_bytes_default : ℕ
log_max_bytes_default = 2 * 1024 * 1024

-- The limit, if there is one to keep.
unfoldable pub log_limit : Option Text → Option ℕ
log_limit none = some log_max_bytes_default
log_limit (some s) = elim (int_of s) [
  | none ↦ some log_max_bytes_default
  | some (pos zero) ↦ none
  | some (pos n) ↦ some n
  | some (negsuc n) ↦ none
]

-- `os.replace(path, path + ".1")`, which fails over something that is no file.
unfoldable pub rename : Text → List ℕ → Directory → Directory
rename name bytes d = elim (get (name ++ suffix) d) [
  | some other ↦ d
  | some (file old) ↦ assign (name ++ suffix) (file bytes) (discard name d)
  | none ↦ assign (name ++ suffix) (file bytes) (discard name d)
]

-- The body of the loop over the names; `refuses` says where the file system fails.
unfoldable pub rotate_file : (Text → Bool) → ℕ → Text → Directory → Directory
rotate_file refuses limit name d = if is_rotated name then d else elim (get name d) [
  | none ↦ d
  | some other ↦ d
  | some (file bytes) ↦ if leb (length bytes) limit || refuses name then d else rename name bytes d
]

unfoldable pub rotate_files : (Text → Bool) → ℕ → List Text → Directory → Directory
rotate_files refuses limit [] d = d
rotate_files refuses limit (name ∷ names) d =
    rotate_files refuses limit names (rotate_file refuses limit name d)

abbrev pub names_of : Directory → List Text
names_of [] = []
names_of ((name, node) ∷ d) = name ∷ names_of d

-- `refuses_list` is that the directory cannot be listed.
unfoldable pub rotate_logs : Option Text → (Text → Bool) → Bool → Directory → Directory
rotate_logs setting refuses refuses_list d = elim (log_limit setting) [
  | none ↦ d
  | some limit ↦ if refuses_list then d else rotate_files refuses limit (names_of d) d
]
