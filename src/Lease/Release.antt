-- ===== src/Lease/Release.antt =====
-- `release` of control/lib/device_screen_lease.py, under the exclusive file lock.
pub mod Laws
pub mod Clears
use stayturgid.Base.{
  Bool, true, false, ◌||◌, Option, none, some, List, [], ◌∷◌, ◌++◌, Text, member, intersects,
  if◌then◌else◌,
}
use stayturgid.Lease.Key.{device_key, folded, lease_path}
use stayturgid.Lease.Env.{Env}
use stayturgid.Lease.Store.{Lease, Files, Listed, lease_device_ids, list_leases, ours, read, unlink}

-- `targets.append`, unless it is there.
abbrev pub add_target : Text → List Text → List Text
add_target p ts = if member p ts then ts else ts ++ p ∷ []

unfoldable pub add_alias_targets : List Text → List Text → List Text
add_alias_targets [] ts = ts
add_alias_targets (alt ∷ alts) ts = add_alias_targets alts (add_target (lease_path alt) ts)

-- The tests `not force and not ours(lease)` and `not force and session_id and ...` of the source:
-- `ours` with a session makes both.
abbrev pub releasable : Env → Text → Bool → Lease → Bool
releasable env session force l = force || ours env session l

-- One listed lease: its own file and its aliases' files become targets.
unfoldable pub collect_one : Env → Text → Bool → List Text → Text → Lease → List Text → List Text
collect_one env session force want p l ts =
    if intersects (lease_device_ids l) want
    then (if releasable env session force l
        then add_alias_targets l.device_ids (add_target p ts)
        else ts)
    else ts

unfoldable pub collect_targets : Env → Text → Bool → List Text → List Listed → List Text → List Text
collect_targets env session force want [] ts = ts
collect_targets env session force want ((p, l) ∷ ls) ts =
    collect_targets env session force want ls (collect_one env session force want p l ts)

-- A file that is no lease document is removed too.
abbrev pub removable : Env → Text → Bool → Option Lease → Bool
removable env session force none = true
removable env session force (some l) = releasable env session force l

abbrev pub remove_file :
    Env → Text → Bool → Text → Option (Option Lease) → Bool × Files → Bool × Files
remove_file env session force p none (removed, s) = (removed, s)
remove_file env session force p (some file) (removed, s) =
    if removable env session force file then (true, unlink p s) else (removed, s)

-- One round of the loop over the targets.
unfoldable pub remove_one : Env → Text → Bool → Text → Bool × Files → Bool × Files
remove_one env session force p acc = remove_file env session force p (read p acc.1) acc

unfoldable pub remove_targets : Env → Text → Bool → List Text → Bool × Files → Bool × Files
remove_targets env session force [] acc = acc
remove_targets env session force (p ∷ ps) acc =
    remove_targets env session force ps (remove_one env session force p acc)

-- Whether a file was removed, and the files.
unfoldable pub release : Env → Text → Text → Bool → Files → Bool × Files
release env device session force s =
    remove_targets env session force
      (collect_targets env session force (device_key device ∷ folded device ∷ [])
        (list_leases false 0 s) (lease_path device ∷ []))
      (false, s)
