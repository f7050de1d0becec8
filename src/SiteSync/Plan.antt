-- ===== src/SiteSync/Plan.antt =====
-- `build_plan` of control/site_contract/site_sync.py.
pub mod Items
pub mod Within
pub mod Deletes
pub mod Settled
use stayturgid.Base.{
  ℕ, Bool, true, false, ◌||◌, ◌&&◌, not, Option, none, some, List, [], ◌∷◌, ◌++◌, Text, codes,
  is_empty, text_eq, member, strip, ◌==◌, if◌then◌else◌, Dict, get, sorted_set,
}
use stayturgid.SiteSync.Site.{
  Node, file, folder, Tree, Live, Error, bad_lockfile, missing_template, open_projection,
  not_rendered, not_parsed, is_folder, outside_generated, Outcome, gives, fails, ◌>>=◌, ◌>>◌,
  refuse_if, product, generated_prefix, lockfile_relative, starts_with, contains, ends_with,
  under_generated,
}
use stayturgid.SiteSync.Manifest.{Entry, paths_of}
use stayturgid.SiteSync.Lock.{
  LockDoc, Yaml, load_lockfile, lockfile_hashes, build_lockfile_document, hash_map,
}

-- What is not in this repository: hashing, the parsers and printers, and the template engine, whose
-- context is the product identity without the time, and files outside the generated directory, the live
-- OliveTin config among them.
pub record World : Type 0 where
  pub sha : Text → Text
  pub load : Text → Option Yaml
  pub dump : LockDoc → Text
  pub is_json : Text → Bool
  pub is_yaml : Text → Bool
  -- a template's text, by its name; `none` is a missing file or one outside the templates' directory
  pub template_text : Text → Option Text
  -- what it renders to; `none` is an error of the engine
  pub render : Text → Option Text
  -- `write_bytes` over the live OliveTin config: what it leaves there, and whether it raises
  pub write_live : Text → Live → Live × Bool

-- The product identity and the time.
pub record Identity : Type 0 where
  pub version : Text
  pub commit : Text
  pub synced : Text

pub data Action : Type 0 where
  create overwrite skip delete : Action

pub record PlannedFile : Type 0 where
  pub path : Text
  pub content : Option Text
  pub action : Action
  pub drift : Bool

pub record Plan : Type 0 where
  pub files : List PlannedFile
  pub lock_content : Text
  pub lock_action : Action

-- `PROJECTION_CLOSED_PREFIXES`
unfoldable pub in_closed_set : Text → Bool
in_closed_set path =
    starts_with (codes "generated/stayturgid/fragments/caddy/") path
    || (starts_with (codes "generated/stayturgid/fragments/grafana/") path
        || starts_with (codes "generated/stayturgid/fragments/olivetin/") path)

unfoldable pub assert_closed_set : Text → Text → Outcome (Unit {0})
assert_closed_set path text =
    refuse_if (not (in_closed_set path) && contains (codes "inventory_hosts") text) open_projection

unfoldable pub assert_parses : World → Text → Text → Outcome (Unit {0})
assert_parses w path content =
    if ends_with (codes ".json") path
    then refuse_if (not (w.is_json content)) not_parsed
    else if ends_with (codes ".yaml") path || ends_with (codes ".yml") path
    then refuse_if (not (w.is_yaml content)) not_parsed
    else gives tt

-- The template's text and its rendering, with the tests on both.
unfoldable pub rendered : World → Entry → Outcome Text
unfolding assert_closed_set assert_parses
rendered w e = elim (w.template_text e.template) [
  | none ↦ fails missing_template
  | some text ↦ assert_closed_set e.path text >> elim (w.render e.template) [
    | none ↦ fails not_rendered
    | some content ↦ assert_parses w e.path content >> gives content
  ]
]

-- The hash on disk is not the one in the lock, or there is none.
abbrev pub is_edited : Text → Option Text → Bool
is_edited on_disk none = true
is_edited on_disk (some lock) = not (text_eq on_disk lock)

-- The action for a manifest path with this content.
unfoldable pub plan_node :
    World → Bool → Option Text → Text → Text → Option Node → Outcome PlannedFile
plan_node w force lock path content none =
    gives (record { path = path; content = some content; action = create; drift = false })
plan_node w force lock path content (some folder) = fails is_folder
plan_node w force lock path content (some (file on_disk)) = gives (
    if text_eq on_disk content
    then record { path = path; content = some content; action = skip; drift = false }
    else record {
      path = path;
      content = some content;
      action = overwrite;
      drift = is_edited (w.sha on_disk) lock && not force;
    })

unfoldable pub plan_content : World → Bool → Dict Text → Tree → Entry → Text → Outcome PlannedFile
unfolding plan_node
plan_content w force known tree e content = do
  refuse_if (not (under_generated e.path)) outside_generated
  plan_node w force (get e.path known) e.path content (get e.path tree)

-- The loop over the manifest: the planned files and the new hashes.
unfoldable pub plan_entries :
    World → Bool → Dict Text → Tree → List Entry → Outcome (List PlannedFile × List (Text × Text))
plan_entries w force known tree [] = gives ([], [])
plan_entries w force known tree (e ∷ es) = do
  content ← rendered w e
  planned ← plan_content w force known tree e content
  rest ← plan_entries w force known tree es
  gives (planned ∷ rest.0, (e.path, w.sha content) ∷ rest.1)

abbrev pub keys_of : Dict Text → List Text
keys_of [] = []
keys_of ((k, v) ∷ d) = k ∷ keys_of d

-- The hash on disk is not the one in the lock, if there is one.
abbrev pub is_drifted : Text → Option Text → Bool
is_drifted on_disk none = false
is_drifted on_disk (some lock) = not (text_eq on_disk lock)

-- The row of a path that left the manifest.
unfoldable pub delete_row : World → Bool → Option Text → Text → Option Node → List PlannedFile
delete_row w force lock path none = []
delete_row w force lock path (some folder) = []
delete_row w force lock path (some (file on_disk)) =
    record {
      path = path;
      content = none;
      action = delete;
      drift = is_drifted (w.sha on_disk) lock && not force;
    }
    ∷ []

unfoldable pub plan_deletes :
    World → Bool → Dict Text → Tree → List Text → List Text → Outcome (List PlannedFile)
unfolding delete_row
plan_deletes w force known tree manifest [] = gives []
plan_deletes w force known tree manifest (p ∷ ps) =
    let rest = plan_deletes w force known tree manifest ps in
    if member p manifest
    then rest
    else if not (starts_with generated_prefix p)
    then fails bad_lockfile
    else rest >>= λ rows. gives (delete_row w force (get p known) p (get p tree) ++ rows)

abbrev pub is_skip : Action → Bool
is_skip skip = true
is_skip other = false

unfoldable pub has_content_work : List PlannedFile → Bool
has_content_work [] = false
has_content_work (f ∷ fs) = not (is_skip f.action) || has_content_work fs

abbrev pub same_text : Option Text → Text → Bool
same_text none t = false
same_text (some s) t = text_eq s t

abbrev is_version_one : Option ℕ → Bool
is_version_one none = false
is_version_one (some n) = n == 1

-- Every entry of the first is in the second.
unfoldable pub is_within : Dict Text → Dict Text → Bool
is_within [] d = true
is_within ((k, v) ∷ rest) d = same_text (get k d) v && is_within rest d

-- The lock says what this plan would make it say. `old` and `new` are dicts.
unfoldable pub is_current : Identity → Dict Text → Dict Text → LockDoc → Bool
unfolding is_within
is_current id old new doc =
    is_version_one doc.contract_version
    && (same_text doc.product_name product
        && (same_text doc.product_version id.version
            && (same_text doc.product_commit id.commit
                && (is_within old new && is_within new old))))

abbrev pub is_noop : Identity → Dict Text → Dict Text → Option LockDoc → Bool
is_noop id old new none = false
is_noop id old new (some doc) = is_current id old new doc

-- The lockfile's new content on what stands there.
unfoldable pub lock_write : Text → Option Node → Action
lock_write bytes none = create
lock_write bytes (some folder) = overwrite
lock_write bytes (some (file text)) = if text_eq text bytes then skip else overwrite

abbrev pub text_of : Option Node → Text
text_of (some (file text)) = text
text_of other = []

unfoldable pub finish_plan :
    World
    → Identity
    → Tree
    → Option LockDoc
    → Dict Text
    → List PlannedFile
    → List (Text × Text)
    → Plan
unfolding lock_write
finish_plan w id tree lock known files hashes =
    let new = w.dump (build_lockfile_document id.version id.commit id.synced hashes) in
    if not (has_content_work files) && is_noop id known (hash_map hashes []) lock
    then record {
      files = files;
      lock_content = text_of (get lockfile_relative tree);
      lock_action = skip;
    }
    else record {
      files = files;
      lock_content = new;
      lock_action = lock_write new (get lockfile_relative tree);
    }

-- The manifest is loaded and the identity is known.
unfoldable pub build_plan : World → Identity → Bool → List Entry → Tree → Outcome Plan
unfolding finish_plan
build_plan w id force manifest tree = do
  lock ← load_lockfile w.load tree
  known ← lockfile_hashes lock
  planned ← plan_entries w force known tree manifest
  deletes ← plan_deletes w force known tree (paths_of manifest) (sorted_set (keys_of known))
  gives (finish_plan w id tree lock known (planned.0 ++ deletes) planned.1)

-- `plan.drifts` is not empty.
unfoldable pub has_drift : List PlannedFile → Bool
has_drift [] = false
has_drift (f ∷ fs) = f.drift || has_drift fs

-- `plan.has_work`
unfoldable pub has_work : Plan → Bool
unfolding has_content_work
has_work plan = not (is_skip plan.lock_action) || has_content_work plan.files
