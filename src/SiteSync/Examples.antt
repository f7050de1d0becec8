-- ===== src/SiteSync/Examples.antt =====
-- Sites with one generated file.
pub mod Printer
use stayturgid.Base.{
  ℕ, ◌≡◌, ◌⊎◌, refl, Bool, true, false, inl, inr, Option, none, some, List, [], ◌∷◌, Text, codes,
  get, assign, insert, sorted_set, All,
}
use stayturgid.SiteSync.Site.{
  Node, file, Tree, Error, Outcome, gives, ◌>>=◌, lockfile_relative, under_generated, exit_code,
  climbs, split_slashes, ends_with, contains, resolve_parts,
}
use stayturgid.SiteSync.Manifest.{
  Entry, RawItem, ManifestDoc, check_path, load_item, load_items, load_files, load_manifest,
}
use stayturgid.SiteSync.Manifest.Paths.{IsOrderly, load_manifest-IsOrderly}
use stayturgid.SiteSync.Lock.{
  LockDoc, Yaml, mapping, load_lockfile, lockfile_hashes, build_lockfile_document, hash_map,
  hashes_of,
}
use stayturgid.SiteSync.Lock.Hashes.{IsDigest, IsClean, lockfile_hashes-build}
use stayturgid.SiteSync.Plan.{
  World, Identity, Action, create, PlannedFile, Plan, plan_entries, rendered, assert_closed_set,
  in_closed_set, assert_parses, plan_content, plan_node, delete_row, plan_deletes, finish_plan,
  has_content_work, lock_write, has_drift, is_current, is_within, build_plan,
}
use stayturgid.SiteSync.Plan.Settled.{IsSynced, IsResting, at_time, IsSynced-build_plan}
use stayturgid.SiteSync.Apply.{perform, apply_file, apply_files, apply_plan}
use stayturgid.SiteSync.Apply.Synced.{apply_plan-IsSynced}
use stayturgid.SiteSync.Run.{
  parse_mode, parse_bool_flag, run_mode, run_plan, run_site_sync, Projection, apply_projection,
}
use stayturgid.SiteSync.Run.Safety.{edited_kept}
use stayturgid.SiteSync.Run.Twice.{sync_twice}
use stayturgid.SiteSync.Run.Confined.{LiveAfter, sync_confined}
use stayturgid.SiteSync.Run.DryRun.{dry_run_predicts}
use stayturgid.SiteSync.Examples.Printer.{print_doc, parse_doc, parse_doc-print_doc}

-- A digest that tells the empty text from others.
abbrev toy_sha : Text → Text
toy_sha [] = codes "e3b0"
toy_sha (c ∷ s) = codes "9f86"

toy_sha-IsDigest : (x : Text) → IsDigest (toy_sha x)
toy_sha-IsDigest [] = record { stripped = refl; lowered = refl; given = refl }
toy_sha-IsDigest (c ∷ s) = record { stripped = refl; lowered = refl; given = refl }

abbrev world : World
world = record {
  sha = toy_sha;
  load = parse_doc;
  dump = print_doc;
  is_json = λ t. true;
  is_yaml = λ t. true;
  template_text = λ t. some (codes "on {{ port }}");
  render = λ t. some (codes "on 80");
  write_live = λ content live. (some content, false);
}

abbrev identity : Identity
identity = record { version = codes "1.2.0"; commit = codes "0a1b2c3"; synced = codes "monday" }

abbrev target : Text
target = codes "generated/stayturgid/web.conf"

abbrev one_file : ManifestDoc
one_file = record {
  contract_version = some 1;
  product_name = some (codes "stayturgid");
  files = some (some (some target, some (codes "web.j2")) ∷ []);
}

abbrev entries : List Entry
entries = record { path = target; template = codes "web.j2" } ∷ []

abbrev agrees : Projection
agrees plan = gives none

-- The file is rendered.
abbrev first_row : PlannedFile
first_row = record { path = target; content = some (codes "on 80"); action = create; drift = false }

abbrev first_doc : LockDoc
first_doc =
    build_lockfile_document (codes "1.2.0") (codes "0a1b2c3") (codes "monday")
      ((target, codes "9f86") ∷ [])

abbrev first_plan : Plan
first_plan = record {
  files = first_row ∷ [];
  lock_content = print_doc first_doc;
  lock_action = create;
}

one_file_loads : load_manifest (some one_file) ≡ gives entries
unfolding load_manifest load_files load_items load_item check_path climbs split_slashes ends_with
one_file_loads = refl

entries_render :
    plan_entries world false [] [] entries ≡ gives (first_row ∷ [], (target, codes "9f86") ∷ [])
unfolding plan_entries rendered assert_closed_set in_closed_set contains assert_parses ends_with
    plan_content plan_node under_generated resolve_parts split_slashes get
entries_render = refl

first_built : build_plan world identity false entries [] ≡ gives first_plan
unfolding build_plan load_lockfile lockfile_hashes get plan_deletes sorted_set finish_plan
    has_content_work lock_write
first_built = rw (build_plan, load_lockfile, lockfile_hashes, entries_render) refl

abbrev after_first : Tree
after_first = (target, file (codes "on 80")) ∷ (lockfile_relative, file (print_doc first_doc)) ∷ []

first_applied : apply_plan first_plan false [] ≡ (after_first, none)
unfolding apply_plan has_drift apply_files apply_file under_generated resolve_parts split_slashes
    perform assign
first_applied = refl

first_ran :
    run_site_sync world identity (codes "apply") (codes "0") (some one_file) none agrees [] none
    ≡ (0, after_first, none)
unfolding run_site_sync parse_mode parse_bool_flag run_mode run_plan has_drift apply_projection
first_ran = rw (run_site_sync, run_mode, one_file_loads, first_built, run_plan, first_applied) refl

load_manifest-IsOrderly_example : IsOrderly entries
load_manifest-IsOrderly_example = load_manifest-IsOrderly (some one_file) one_file_loads

sync_twice_example :
    let again =
      run_site_sync world
        (at_time identity (codes "friday"))
        (codes "apply")
        (codes "yes")
        (some one_file)
        none
        agrees
        after_first
        none in
    (again.0 ≡ 0) × (again.1 ≡ after_first)
unfolding parse_mode parse_bool_flag apply_projection
sync_twice_example =
    sync_twice world identity (codes "apply") (codes "0") (some one_file) none agrees [] after_first
      none none toy_sha-IsDigest parse_doc-print_doc refl first_ran (codes "apply") (codes "yes")
      (codes "friday") true none (λ plan. none) agrees none (inl refl) refl (λ plan. refl)
      (λ plan. refl)

first_fine : (apply_plan first_plan false []).1 ≡ none
first_fine = rw first_applied refl

apply_plan-IsSynced_example : IsSynced world identity entries (apply_plan first_plan false []).0
apply_plan-IsSynced_example =
    apply_plan-IsSynced world identity false (some one_file) entries [] first_plan toy_sha-IsDigest
      parse_doc-print_doc one_file_loads first_built first_fine

after_first-IsSynced : IsSynced world identity entries after_first
unfolding load_lockfile lockfile_hashes hashes_of is_current is_within hash_map assign
    build_lockfile_document rendered assert_closed_set in_closed_set contains assert_parses
    ends_with under_generated resolve_parts split_slashes get
after_first-IsSynced = record {
  doc = first_doc;
  known = (target, codes "9f86") ∷ [];
  hashes = (target, codes "9f86") ∷ [];
  settled = (codes "on 80", [], refl, refl, refl, refl, refl);
  locking = refl;
  hashing = refl;
  current = refl;
}

IsSynced-build_plan_example :
    (plan : Plan) × (build_plan world (at_time identity (codes "friday")) true entries after_first
      ≡ gives plan)
    × IsResting plan
IsSynced-build_plan_example =
    IsSynced-build_plan world identity true (codes "friday") entries after_first
      after_first-IsSynced

-- A file that someone put there by hand.
abbrev by_hand : Tree
by_hand = (target, file (codes "mine")) ∷ []

edited_kept_example :
    get target
      (run_site_sync world identity
        (codes "apply")
        (codes "no")
        (some one_file)
        none
        agrees
        by_hand
        none).1
    ≡ some (file (codes "mine"))
unfolding load_lockfile lockfile_hashes get parse_bool_flag
edited_kept_example =
    edited_kept world identity by_hand [] target (codes "mine") refl refl refl refl (codes "apply")
      (codes "no") (some one_file) none agrees none refl

abbrev hosts : Text
hosts = codes "generated/stayturgid/../../inventory/hosts.yml"

abbrev phones : Tree
phones = (hosts, file (codes "phones")) ∷ []

-- The projection has a content, and the live config an older one.
abbrev projects : Projection
projects plan = gives (some (codes "actions"))

sync_confined_example :
    let r =
      run_site_sync world identity
        (codes "apply")
        (codes "1")
        (some one_file)
        none
        projects
        phones
        (some (codes "old")) in
    (get hosts r.1 ≡ get hosts phones)
    × LiveAfter world (parse_mode (codes "apply")) projects (some (codes "old")) r.2
unfolding under_generated resolve_parts split_slashes
sync_confined_example =
    sync_confined hosts refl world identity phones (some (codes "old")) (codes "apply") (codes "1")
      (some one_file) none projects

-- A lockfile that lists a path with `..`, which begins like a generated one.
abbrev escaping : Tree
escaping =
    (
      lockfile_relative,
      file (
          print_doc (
            build_lockfile_document (codes "1.1.0") (codes "0a1b2c3") (codes "sunday")
              ((hosts, codes "9f86") ∷ []))),
    )
    ∷ (hosts, file (codes "phones"))
    ∷ []

abbrev escaping_rows : List PlannedFile
escaping_rows =
    first_row ∷ record { path = hosts; content = none; action = Action.delete; drift = false } ∷ []

escaping_built :
    build_plan world identity false entries escaping
    ≡ gives (record {
      files = escaping_rows;
      lock_content = print_doc first_doc;
      lock_action = Action.overwrite;
    })
unfolding build_plan load_lockfile lockfile_hashes hashes_of build_lockfile_document get assign
    plan_entries rendered assert_closed_set in_closed_set contains assert_parses ends_with
    plan_content plan_node under_generated resolve_parts split_slashes plan_deletes delete_row
    sorted_set insert finish_plan has_content_work lock_write
escaping_built = refl

-- The dry run promises to delete it.
escaping_dry_run :
    (run_site_sync world identity
      (codes "dry-run")
      (codes "0")
      (some one_file)
      none
      agrees
      escaping
      none).0
    ≡ 0
unfolding run_site_sync parse_mode parse_bool_flag run_mode run_plan has_drift
escaping_dry_run = rw (run_site_sync, run_mode, one_file_loads, escaping_built) refl

-- The same run in earnest stops there, after it has written the other file and before the lockfile.
escaping_apply :
    run_site_sync world identity
      (codes "apply")
      (codes "0")
      (some one_file)
      none
      agrees
      escaping
      none
    ≡ (1, assign target (file (codes "on 80")) escaping, none)
unfolding run_site_sync parse_mode parse_bool_flag run_mode run_plan has_drift apply_plan
    apply_files apply_file under_generated resolve_parts split_slashes perform exit_code
escaping_apply = rw (run_site_sync, run_mode, one_file_loads, escaping_built) refl

dry_run_predicts_example :
    let told =
      run_site_sync world identity
        (codes "dry-run")
        (codes "0")
        (some one_file)
        none
        agrees
        by_hand
        none in
    (told.1 ≡ by_hand)
    × (told.2 ≡ none)
    × ((told.0 ≡ 0)
        ⊎ (run_site_sync world identity
              (codes "apply")
              (codes "0")
              (some one_file)
              none
              agrees
              by_hand
              none
            ≡ told))
unfolding parse_mode
dry_run_predicts_example =
    dry_run_predicts world identity (codes "dry-run") (codes "apply") (codes "0") (some one_file)
      none agrees by_hand none refl refl
