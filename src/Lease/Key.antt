-- ===== src/Lease/Key.antt =====
-- `device_key` and `lease_path` of control/lib/device_screen_lease.py, on ASCII device names.
pub mod Safe
use stayturgid.Base.{
  ℕ, Bool, ◌||◌, ◌++◌, map, Text, codes, or_else, lower, is_alnum, strip, strip_chars, take, ◌==◌,
  if◌then◌else◌,
}

-- The characters that a key keeps.
abbrev pub is_key_char : ℕ → Bool
is_key_char c = is_alnum c || (c == b'-' || (c == b'_' || c == b'.'))

abbrev pub key_char : ℕ → ℕ
key_char c = if is_key_char c then c else b'_'

-- The characters that `strip("._")` removes.
abbrev pub is_key_edge : ℕ → Bool
is_key_edge c = c == b'.' || c == b'_'

abbrev pub unknown : Text
unknown = codes "unknown"

abbrev pub max_key : ℕ
max_key = 120

-- `str(s).strip().lower()`
unfoldable pub folded : Text → Text
folded s = lower (strip s)

unfoldable pub device_key : Text → Text
unfolding folded
device_key device =
    take max_key
      (or_else (strip_chars is_key_edge (map key_char (folded (or_else device unknown)))) unknown)

-- The file's name in the leases directory.
unfoldable pub lease_path : Text → Text
lease_path device = device_key device ++ codes ".json"
