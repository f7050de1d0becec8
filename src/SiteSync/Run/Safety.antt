-- ===== src/SiteSync/Run/Safety.antt =====
-- What a run leaves alone.
use stayturgid.Base.{
  ◌≡◌, ◌∙◌, true, false, Option, some, List, [], ◌∷◌, ◌++◌, arith, All, All-append, Text, text_eq,
  Dict, get, sorted_set,
}
use stayturgid.SiteSync.Site.{file, Tree, Live, Error, gives, ◌>>=◌, lockfile_relative}
use stayturgid.SiteSync.Manifest.{paths_of, Entry, ManifestDoc}
use stayturgid.SiteSync.Lock.{load_lockfile, lockfile_hashes}
use stayturgid.SiteSync.Plan.{
  World, Identity, PlannedFile, Plan, is_edited, keys_of, has_drift, build_plan,
}
use stayturgid.SiteSync.Plan.Items.{
  Guards, plan_entries-Guards, plan_deletes-Guards, keys-is_given, build_plan-Built,
  files-finish_plan,
}
use stayturgid.SiteSync.Apply.Keeps.{Spares, get-apply_plan}
use stayturgid.SiteSync.Run.Lift.{lift_run}
use stayturgid.SiteSync.Run.{Projection, parse_bool_flag, run_site_sync}

-- Without drift, a row that guards a path spares it.
spares :
    (p : Text) (fs : List PlannedFile)
    → has_drift fs ≡ false
    → All (Guards p) fs
    → All (Spares p) fs
unfolding has_drift
spares p [] h g = tt
spares p (f ∷ fs) h g = (ground arith, spares p fs (ground arith) g.1)

module _ (w : World) (id : Identity) (t : Tree) (known : Dict Text) (p c : Text)
    (locked : (load_lockfile w.load t >>= lockfile_hashes) ≡ gives known)
    (there : get p t ≡ some (file c)) (edited : is_edited (w.sha c) (get p known) ≡ true)
    (own : text_eq lockfile_relative p ≡ false) where
  plan-Guards :
      (manifest : List Entry) {plan : Plan}
      → build_plan w id false manifest t ≡ gives plan
      → All (Guards p) plan.files
  plan-Guards manifest {plan} h =
      let b = build_plan-Built w id false manifest t h in
      let same : b.known ≡ known = cc (rw (b.locking, b.hashing) at locked) in
      let edited' : is_edited (w.sha c) (get p b.known) ≡ true = rw same edited in
      let rows : plan.files ≡ b.planned.0 ++ b.deletes =
        cc (
          files-finish_plan w id t b.lock b.known (b.planned.0 ++ b.deletes) b.planned.1,
          b.made,
        ) in
      rw rows (
        All-append (Guards p) b.planned.0 b.deletes
          (plan_entries-Guards w b.known t p c there edited' manifest b.planning)
          (plan_deletes-Guards w b.known t p c there edited' (paths_of manifest)
            (sorted_set (keys_of b.known)) (keys-is_given b.known) b.deleting))

  -- A file whose hash is not the one the lockfile has for it, or for which it has none, is as it
  -- was after a run without force, in every mode and whatever the manifest and the templates say.
  -- The lockfile itself is not meant.
  pub edited_kept :
      (mode force : Text) (doc : Option ManifestDoc) (notes : Option Error)
      (projection : Projection) (live : Live)
      → parse_bool_flag force ≡ gives false
      → get p (run_site_sync w id mode force doc notes projection t live).1 ≡ some (file c)
  edited_kept mode force doc notes projection live unforced =
      lift_run w id t live (λ u. get p u ≡ some (file c)) there false
        (λ manifest plan made free.
          get-apply_plan p plan false t own
            (spares p plan.files (ground arith) (plan-Guards manifest made))
          ∙ there)
        mode force doc notes projection unforced
