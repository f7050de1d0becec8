-- ===== src/SiteSync/Manifest.antt =====
-- `load_manifest` of control/site_contract/site_sync.py, on the parsed document.
pub mod Paths
use stayturgid.Base.{
  ℕ, Bool, true, false, ◌||◌, ◌&&◌, not, Option, none, some, List, [], ◌∷◌, Text, codes, is_empty,
  map, text_eq, member, strip, ◌==◌, if◌then◌else◌,
}
use stayturgid.SiteSync.Site.{
  Error, bad_manifest, Outcome, gives, fails, ◌>>=◌, ◌>>◌, refuse_if, product, generated_prefix,
  lockfile_relative, starts_with, ends_with, climbs,
}

-- `ManifestEntry`
pub record Entry : Type 0 where
  pub path : Text
  pub template : Text

-- `manifest.paths()`
abbrev pub paths_of : List Entry → List Text
paths_of [] = []
paths_of (e ∷ es) = e.path ∷ paths_of es

-- An item of a list of files: `none` is no mapping; a field is `none` if it is no text.
abbrev pub RawItem : Type 0
RawItem = Option (Option Text × Option Text)

-- A document whose root is a mapping; `files` is `none` if it is no list.
pub record ManifestDoc : Type 0 where
  pub contract_version : Option ℕ
  pub product_name : Option Text
  pub files : Option (List RawItem)

-- `.replace("\\", "/")`
abbrev pub slash : ℕ → ℕ
slash c = if c == 92 then 47 else c

abbrev pub normal : Text → Text
normal s = map slash (strip s)

-- `isinstance(v, str) and v.strip()`
abbrev pub given : Option Text → Outcome Text
given none = fails bad_manifest
given (some s) = if is_empty (strip s) then fails bad_manifest else gives s

-- The tests on a path, in their order.
unfoldable pub check_path : Text → Text → List Text → Outcome (Unit {0})
check_path rel template seen = do
  refuse_if (starts_with (codes "/") rel) bad_manifest
  refuse_if (climbs rel || climbs template) bad_manifest
  refuse_if (not (starts_with generated_prefix rel)) bad_manifest
  refuse_if (text_eq rel lockfile_relative || ends_with (codes "/.lockfile.yml") rel) bad_manifest
  refuse_if (member rel seen) bad_manifest

unfoldable pub load_item : RawItem → List Text → Outcome Entry
load_item none seen = fails bad_manifest
load_item (some (path, template)) seen = do
  p ← given path
  t ← given template
  check_path (normal p) (normal t) seen
  gives (record { path = normal p; template = normal t })

unfoldable pub load_items : List RawItem → List Text → Outcome (List Entry)
load_items [] seen = gives []
load_items (item ∷ items) seen = do
  e ← load_item item seen
  es ← load_items items (e.path ∷ seen)
  gives (e ∷ es)

abbrev is_one : Option ℕ → Bool
is_one none = false
is_one (some n) = n == 1

abbrev is_product : Option Text → Bool
is_product none = false
is_product (some p) = text_eq p product

unfoldable pub load_files : Option (List RawItem) → Outcome (List Entry)
load_files none = fails bad_manifest
load_files (some []) = fails bad_manifest
load_files (some (item ∷ items)) = load_items (item ∷ items) []

-- `none` is a missing file, or a document that cannot be read or is no mapping.
unfoldable pub load_manifest : Option ManifestDoc → Outcome (List Entry)
unfolding load_files
load_manifest none = fails bad_manifest
load_manifest (some doc) = do
  refuse_if (not (is_one doc.contract_version)) bad_manifest
  refuse_if (not (is_product doc.product_name)) bad_manifest
  load_files doc.files
