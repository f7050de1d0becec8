-- ===== src/Lease/Store.antt =====
-- The lease files: their content, which of them are active, and the lookup by alias
-- (control/lib/device_screen_lease.py). Times are whole milliseconds of `time.time()`;
-- `expires_at` is the second that its ISO text denotes.
pub mod Laws
pub mod Lookup
use stayturgid.Base.{
  ℕ, ◌*◌, ◌/◌, Bool, true, ◌&&◌, not, Option, none, some, List, [], ◌∷◌, ◌++◌, Text, is_empty,
  or_else, text_eq, text_lt, intersects, strip, ltb, if◌then◌else◌,
}
use stayturgid.Lease.Key.{device_key, folded}
use stayturgid.Lease.Env.{Env, project_id}

pub record Holder : Type 0 where
  pub project : Text
  pub agent : Text
  pub session_id : Text
  pub pid : ℕ
  pub hostname : Text

-- A lease document. `project` and `session_id` at the top level, `expires` and an absent `holder`
-- or `expires_at` come from other writers; an absent text is empty, an absent number 0.
pub record Lease : Type 0 where
  pub device : Text
  pub device_ids : List Text
  pub holder : Option Holder
  pub project : Text
  pub session_id : Text
  pub purpose : Text
  pub started_at : ℕ
  pub heartbeat_at : ℕ
  pub expires_at : Option ℕ
  pub expires : ℕ
  pub ttl_sec : ℕ

-- The leases directory: file names in the order of `sorted(root.glob("*.json"))`, each with what
-- `_read_json` makes of the file. `none` is a file that is unreadable, not a document, or `{}`.
abbrev pub Files : Type 0
Files = List (Text × Option Lease)

-- `os.replace` of a file that is written whole: the name is overwritten, or takes its place in order.
unfoldable pub put : Text → Option Lease → Files → Files
put p l [] = (p, l) ∷ []
put p l ((q, m) ∷ s) =
    if text_eq q p
    then (p, l) ∷ s
    else if text_lt p q
    then (p, l) ∷ (q, m) ∷ s
    else (q, m) ∷ put p l s

-- `Path.unlink`
unfoldable pub unlink : Text → Files → Files
unlink p [] = []
unlink p ((q, m) ∷ s) = if text_eq q p then s else (q, m) ∷ unlink p s

-- `Path.is_file`, with the content: `none` is no such file.
unfoldable pub read : Text → Files → Option (Option Lease)
read p [] = none
read p ((q, m) ∷ s) = if text_eq q p then some m else read p s

-- `_iso` cuts a time to whole seconds.
abbrev pub iso : ℕ → ℕ
iso now = now / 1000

-- `_parse_iso(expires_at)`, or the number `expires`.
abbrev pub expiry : Lease → ℕ
expiry l = elim l.expires_at [ none ↦ l.expires | some ts ↦ ts ]

unfoldable pub is_active : Lease → ℕ → Bool
is_active l now = ltb now (expiry l * 1000)

abbrev pub project_of : Option Holder → Text
project_of none = []
project_of (some h) = h.project

abbrev pub session_of : Option Holder → Text
session_of none = []
session_of (some h) = h.session_id

unfoldable pub holder_project : Lease → Text
holder_project l = strip (or_else (project_of l.holder) l.project)

unfoldable pub holder_session : Lease → Text
holder_session l = strip (or_else (session_of l.holder) l.session_id)

-- Both spellings of one alias, if it is not empty.
abbrev pub spellings : Text → List Text
spellings d = if is_empty d then [] else device_key d ∷ folded d ∷ []

unfoldable pub all_spellings : List Text → List Text
all_spellings [] = []
all_spellings (d ∷ ds) = spellings d ++ all_spellings ds

unfoldable pub lease_device_ids : Lease → List Text
unfolding all_spellings
lease_device_ids l = spellings l.device ++ all_spellings l.device_ids

-- A document with the `_path` that `list_leases` adds.
abbrev pub Listed : Type 0
Listed = Text × Lease

unfoldable pub list_leases : Bool → ℕ → Files → List Listed
list_leases active_only now [] = []
list_leases active_only now ((p, none) ∷ s) = list_leases active_only now s
list_leases active_only now ((p, some l) ∷ s) =
    let rest = list_leases active_only now s in
    if active_only && not (is_active l now) then rest else (p, l) ∷ rest

unfoldable pub first_match : List Text → List Listed → Option Listed
first_match keys [] = none
first_match keys ((p, l) ∷ ls) =
    if intersects (lease_device_ids l) keys then some (p, l) else first_match keys ls

unfoldable pub find_active_lease : List Text → ℕ → Files → Option Listed
unfolding first_match list_leases all_spellings
find_active_lease devices now s = elim (all_spellings devices) [
  | [] ↦ none
  | k ∷ ks ↦ first_match (k ∷ ks) (list_leases true now s)
]

-- `ours`: of this project, and of the session if one is asked for and one is recorded.
unfoldable pub ours : Env → Text → Lease → Bool
unfolding holder_project holder_session project_id
ours env session l =
    text_eq (holder_project l) (project_id env)
    && not (
        not (is_empty session)
        && (not (is_empty (holder_session l)) && not (text_eq (holder_session l) session)))
