-- ===== src/SiteSync/Apply/Synced.antt =====
-- An applied plan leaves the site synced.
use stayturgid.Base.{
  ◌≡◌, refl, sym, ap, ◌∙◌, Bool, true, false, ◌&&◌, not, Option, none, some, List, [], ◌++◌, arith,
  All, All-append, All-imp, Text, text_eq, text_eq_refl, get, sorted_set, Bool-cases, Option-cases,
  inl, inr,
}
use stayturgid.SiteSync.Site.{file, Tree, gives, lockfile_relative}
use stayturgid.SiteSync.Manifest.{ManifestDoc, load_manifest, Entry, paths_of}
use stayturgid.SiteSync.Manifest.Paths.{Fits, Fits-apart, load_manifest-IsOrderly, IsOrderly}
use stayturgid.SiteSync.Lock.{LockDoc, mapping, load_lockfile, build_lockfile_document, hash_map}
use stayturgid.SiteSync.Lock.Hashes.{IsDigest, lockfile_hashes-build}
use stayturgid.SiteSync.Plan.{
  World, Identity, skip, PlannedFile, Plan, keys_of, is_skip, has_content_work, is_noop, is_current,
  lock_write, build_plan,
}
use stayturgid.SiteSync.Plan.Items.{Built, build_plan-Built, files-finish_plan}
use stayturgid.SiteSync.Plan.Within.{is_within-hash_map}
use stayturgid.SiteSync.Plan.Deletes.{plan_deletes-others}
use stayturgid.SiteSync.Plan.Settled.{
  Settled, Settled-same, paths-Settled, keys-member, plan_deletes-listed, IsSynced,
}
use stayturgid.SiteSync.Apply.{apply_files, write_lock, apply_plan}
use stayturgid.SiteSync.Apply.Keeps.{Spares, get-apply_files, get-write_lock}
use stayturgid.SiteSync.Apply.Settles.{plan_entries-Settled, plan_entries-Spares}
use stayturgid.SiteSync.Apply.Steps.{
  apply_files-skip, write_lock-kept, write_lock-written, apply_plan-step, finish_plan-rest,
  finish_plan-write, lock_write-skip, plan_entries-IsClean, All-same,
}

-- A plan that was made and applied without an error.
module _ (w : World) (id : Identity) (force : Bool) (manifest : List Entry) (t : Tree)
    (sha : (x : Text) → IsDigest (w.sha x))
    (prints : (d : LockDoc) → w.load (w.dump d) ≡ some (mapping d)) (orderly : IsOrderly manifest)
    (plan : Plan) (b : Built w id force manifest t plan)
    (fine : (apply_plan plan force t).1 ≡ none) where
  abbrev rows : List PlannedFile
  rows = b.planned.0 ++ b.deletes

  abbrev after : Tree
  after = (apply_plan plan force t).0

  files_of : plan.files ≡ rows
  files_of =
      sym (ap (λ x. x.files) b.made) ∙ files-finish_plan w id t b.lock b.known rows b.planned.1

  rows_fine : (apply_files rows t).1 ≡ none
  rows_fine = rw (sym files_of) (apply_plan-step plan force t fine).0

  after_step : after ≡ (write_lock plan (apply_files rows t)).0
  after_step =
      ap (λ r. r.0) (apply_plan-step plan force t fine).1
      ∙ ap (λ fs. (write_lock plan (apply_files fs t)).0) files_of

  after-Settled : Settled w after manifest b.planned.1
  after-Settled =
      Settled-same w (apply_files rows t).0 after manifest b.planned.1
        (All-imp Fits (λ p. get p after ≡ get p (apply_files rows t).0) (paths_of manifest)
          (λ p fits.
            ap (get p) after_step ∙ get-write_lock p plan (apply_files rows t) (Fits-apart p fits))
          orderly.fit)
        (plan_entries-Settled w force b.known t manifest b.deletes t b.planning orderly.distinct
          (plan_deletes-others w force b.known t (paths_of manifest) (sorted_set (keys_of b.known))
            b.deleting)
          (All-same t (paths_of manifest)) rows_fine)

  abbrev new_doc : LockDoc
  new_doc = build_lockfile_document id.version id.commit id.synced b.planned.1

  -- A lockfile with the new text makes the site synced.
  written-IsSynced :
      get lockfile_relative after ≡ some (file (w.dump new_doc)) → IsSynced w id manifest after
  unfolding load_lockfile is_current build_lockfile_document
  written-IsSynced here = record {
    doc = new_doc;
    known = hash_map b.planned.1 [];
    hashes = b.planned.1;
    settled = after-Settled;
    locking = rw (load_lockfile, here, prints new_doc) refl;
    hashing =
        lockfile_hashes-build id.version id.commit id.synced b.planned.1
          (plan_entries-IsClean w force b.known t manifest sha orderly.fit b.planning);
    current =
        rw (text_eq_refl id.version, text_eq_refl id.commit, is_within-hash_map b.planned.1) refl;
  }

  abbrev is_rest : Bool
  is_rest = not (has_content_work rows) && is_noop id b.known (hash_map b.planned.1 []) b.lock

  -- Nothing was to be done.
  rest-IsSynced :
      (doc : LockDoc) → b.lock ≡ some doc → is_rest ≡ true → IsSynced w id manifest after
  rest-IsSynced doc locked rest =
      let idle : has_content_work rows ≡ false = ground arith in
      let noop : is_noop id b.known (hash_map b.planned.1 []) b.lock ≡ true = ground arith in
      let kept : plan.lock_action ≡ skip =
        sym (ap (λ x. x.lock_action) b.made)
        ∙ finish_plan-rest w id t b.lock b.known rows b.planned.1 rest in
      let same : after ≡ t =
        after_step
        ∙ write_lock-kept plan (apply_files rows t) (rw kept refl)
        ∙ apply_files-skip rows t idle in
      record {
        doc = doc;
        known = b.known;
        hashes = b.planned.1;
        settled = after-Settled;
        locking = ap (load_lockfile w.load) same ∙ b.locking ∙ ap gives locked;
        hashing = rw (sym locked) b.hashing;
        current = rw locked at noop;
      }

  abbrev new : Text
  new = w.dump new_doc

  -- The lockfile's text is the new one already.
  unchanged-IsSynced :
      get lockfile_relative t ≡ some (file new)
      → is_skip plan.lock_action ≡ true
      → IsSynced w id manifest after
  unfolding load_lockfile
  unchanged-IsSynced here kept =
      let loaded : load_lockfile w.load t ≡ gives (some new_doc) =
        rw (load_lockfile, here, prints new_doc) refl in
      let lock : b.lock ≡ some new_doc = cc (b.locking, loaded) in
      let hashed =
        lockfile_hashes-build id.version id.commit id.synced b.planned.1
          (plan_entries-IsClean w force b.known t manifest sha orderly.fit b.planning) in
      let known : b.known ≡ hash_map b.planned.1 [] = cc (rw lock at b.hashing, hashed) in
      let none_left =
        plan_deletes-listed w force b.known t (paths_of manifest) (sorted_set (keys_of b.known)) (
          keys-member b.planned.1 b.known (paths_of manifest)
            (paths-Settled w after manifest b.planned.1 after-Settled)
            (rw known (is_within-hash_map b.planned.1))) in
      let no_deletes : b.deletes ≡ [] = cc (b.deleting, none_left) in
      let spared : All (Spares lockfile_relative) rows =
        All-append (Spares lockfile_relative) b.planned.0 b.deletes
          (plan_entries-Spares lockfile_relative w force b.known t manifest b.planning (
            All-imp Fits (λ p. text_eq lockfile_relative p ≡ false) (paths_of manifest) Fits-apart
              orderly.fit))
          (rw no_deletes tt) in
      written-IsSynced (
        ap (get lockfile_relative) (after_step ∙ write_lock-kept plan (apply_files rows t) kept)
        ∙ get-apply_files lockfile_relative rows t spared
        ∙ here)

  changed-IsSynced : is_rest ≡ false → IsSynced w id manifest after
  changed-IsSynced work =
      let (acts, says) = finish_plan-write w id t b.lock b.known rows b.planned.1 work in
      let action : plan.lock_action ≡ lock_write new (get lockfile_relative t) =
        sym (ap (λ x. x.lock_action) b.made) ∙ acts in
      let content : plan.lock_content ≡ new = sym (ap (λ x. x.lock_content) b.made) ∙ says in
      elim (Bool-cases (is_skip (lock_write new (get lockfile_relative t)))) [
        | inl kept ↦
            unchanged-IsSynced (lock_write-skip new (get lockfile_relative t) kept) (rw action kept)
        | inr written ↦ written-IsSynced (
            ap (get lockfile_relative) after_step
            ∙ write_lock-written plan (apply_files rows t) rows_fine (rw action written)
            ∙ ap (λ x. some (file x)) content)
      ]

  built-IsSynced : IsSynced w id manifest after
  built-IsSynced = elim (Bool-cases is_rest) [
    | inr work ↦ changed-IsSynced work
    | inl rest ↦ elim (Option-cases b.lock) [
      | inl missing ↦
          let noop : is_noop id b.known (hash_map b.planned.1 []) b.lock ≡ true = ground arith in
          cc (rw missing at noop)
      | inr (doc, locked) ↦ rest-IsSynced doc locked rest
    ]
  ]

-- A plan that is made for a manifest that loads and applied without an error leaves every file of
-- the manifest with the content that its template renders to, and a lockfile of this product, its
-- version and commit, which loads and has the digests of exactly these files. `hexdigest` returns
-- digests, and a printed lockfile is read back.
pub apply_plan-IsSynced :
    (w : World) (id : Identity) (force : Bool) (doc : Option ManifestDoc) (manifest : List Entry)
    (t : Tree) (plan : Plan)
    → ((x : Text) → IsDigest (w.sha x))
    → ((d : LockDoc) → w.load (w.dump d) ≡ some (mapping d))
    → load_manifest doc ≡ gives manifest
    → build_plan w id force manifest t ≡ gives plan
    → (apply_plan plan force t).1 ≡ none
    → IsSynced w id manifest (apply_plan plan force t).0
apply_plan-IsSynced w id force doc manifest t plan sha prints loaded made fine =
    built-IsSynced w id force manifest t sha prints (load_manifest-IsOrderly doc loaded) plan
      (build_plan-Built w id force manifest t made) fine
