-- ===== src/SiteSync/Lock.antt =====
-- The lockfile: `load_lockfile`, `lockfile_hashes` and `build_lockfile_document` of
-- control/site_contract/site_sync.py.
pub mod Hashes
use stayturgid.Base.{
  ℕ, Bool, true, false, ◌&&◌, Option, none, some, List, [], ◌∷◌, Text, is_empty, text_eq, strip,
  lower, ◌==◌, if◌then◌else◌, Dict, get, assign,
}
use stayturgid.SiteSync.Site.{
  Node, file, folder, Tree, Error, bad_lockfile, Outcome, gives, fails, ◌>>=◌, product,
  lockfile_relative,
}
use stayturgid.SiteSync.Manifest.{RawItem}

-- The value of `files`.
pub data RawFiles : Type 0 where
  absent not_a_list : RawFiles
  listed : List RawItem → RawFiles

pub record LockDoc : Type 0 where
  pub contract_version : Option ℕ
  pub product_name : Option Text
  pub product_version : Option Text
  pub product_commit : Option Text
  pub synced : Option Text
  pub files : RawFiles

-- What YAML text stands for, as far as it is told apart here. An empty mapping is a document
-- without fields.
pub data Yaml : Type 0 where
  nothing other : Yaml
  mapping : LockDoc → Yaml

-- `load_lockfile`, with `yaml.safe_load` as a parameter.
unfoldable pub load_lockfile : (Text → Option Yaml) → Tree → Outcome (Option LockDoc)
load_lockfile load tree = elim (get lockfile_relative tree) [
  | none ↦ gives none
  | some folder ↦ fails bad_lockfile
  | some (file text) ↦ elim (load text) [
    | none ↦ fails bad_lockfile
    | some nothing ↦ gives none
    | some other ↦ fails bad_lockfile
    | some (mapping doc) ↦ gives (some doc)
  ]
]

abbrev pub locked : Option Text → Outcome Text
locked none = fails bad_lockfile
locked (some s) = if is_empty (strip s) then fails bad_lockfile else gives (strip s)

-- The loop over the items, with what was put in before.
unfoldable pub hashes_of : List RawItem → Dict Text → Outcome (Dict Text)
hashes_of [] out = gives out
hashes_of (none ∷ items) out = fails bad_lockfile
hashes_of (some (path, digest) ∷ items) out = do
  p ← locked path
  d ← locked digest
  hashes_of items (assign p (lower d) out)

unfoldable pub lockfile_hashes : Option LockDoc → Outcome (Dict Text)
unfolding hashes_of
lockfile_hashes none = gives []
lockfile_hashes (some doc) = elim doc.files [
  | absent ↦ gives []
  | not_a_list ↦ fails bad_lockfile
  | listed items ↦ hashes_of items []
]

abbrev pub lock_items : List (Text × Text) → List RawItem
lock_items [] = []
lock_items ((path, digest) ∷ files) = some (some path, some digest) ∷ lock_items files

unfoldable pub build_lockfile_document : Text → Text → Text → List (Text × Text) → LockDoc
build_lockfile_document version commit synced hashes = record {
  contract_version = some 1;
  product_name = some product;
  product_version = some version;
  product_commit = some commit;
  synced = some synced;
  files = listed (lock_items hashes);
}

-- `{path: digest for path, digest in hashes}`
unfoldable pub hash_map : List (Text × Text) → Dict Text → Dict Text
hash_map [] out = out
hash_map ((path, digest) ∷ files) out = hash_map files (assign path digest out)
