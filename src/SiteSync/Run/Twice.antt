-- ===== src/SiteSync/Run/Twice.antt =====
-- A run after a run that succeeded.
use stayturgid.Base.{
  ℕ, ◌≡◌, refl, ap, ◌⊎◌, Bool, true, ◌&&◌, not, Option, none, some, List, [], ◌∷◌, arith, All, Text,
  Bool-cases, inl, inr, ◌≢◌,
}
use stayturgid.SiteSync.Site.{Tree, Live, Error, gives, Outcome-cases, exit_code, under_generated}
use stayturgid.SiteSync.Manifest.{Entry, ManifestDoc, load_manifest}
use stayturgid.SiteSync.Lock.{LockDoc, mapping}
use stayturgid.SiteSync.Lock.Hashes.{IsDigest}
use stayturgid.SiteSync.Plan.{
  World, Identity, Action, skip, PlannedFile, Plan, build_plan, has_drift, is_skip,
}
use stayturgid.SiteSync.Plan.Settled.{
  IsSynced, IsIdle, IsResting, idle-has_drift, at_time, IsSynced-build_plan,
}
use stayturgid.SiteSync.Apply.{perform, apply_file, apply_files, apply_plan, Applied}
use stayturgid.SiteSync.Apply.Synced.{apply_plan-IsSynced}
use stayturgid.SiteSync.Run.{
  Mode, apply, dry_run, docs, parse_mode, parse_bool_flag, Projection, exit_of, apply_projection,
  then_project, run_plan, run_mode, run_site_sync,
}

perform-idle :
    (a : Action) (p : Text) (content : Option Text) (t : Tree)
    → is_skip a ≡ true
    → perform a p content t ≡ (t, none)
unfolding perform
perform-idle skip p content t h = refl
perform-idle Action.create p content t h = cc
perform-idle Action.overwrite p content t h = cc
perform-idle Action.delete p content t h = cc

apply_file-IsIdle : (f : PlannedFile) (t : Tree) → IsIdle f → apply_file f t ≡ (t, none)
unfolding apply_file
apply_file-IsIdle f t h =
    let under : under_generated f.path ≡ true = ground arith in
    rw (apply_file, under) (perform-idle f.action f.path f.content t (ground arith))

apply_files-IsIdle :
    (fs : List PlannedFile) (t : Tree) → All IsIdle fs → apply_files fs t ≡ (t, none)
unfolding apply_files
apply_files-IsIdle [] t h = refl
apply_files-IsIdle (f ∷ fs) t h =
    let same = apply_file-IsIdle f t h.0 in
    rw (apply_files, ap (λ a. a.1) same, ap (λ a. a.0) same) (apply_files-IsIdle fs t h.1)

-- Applying a plan with nothing to do changes nothing.
pub apply_plan-IsResting :
    (plan : Plan) (force : Bool) (t : Tree) → IsResting plan → apply_plan plan force t ≡ (t, none)
unfolding apply_plan
apply_plan-IsResting plan force t h =
    rw
      (
        apply_plan,
        idle-has_drift plan.files h.idle,
        apply_files-IsIdle plan.files t h.idle,
        h.lock_kept,
      )
      refl

exit_code-positive : (e : Error) → exit_code e ≢ 0
unfolding exit_code
exit_code-positive e h = ground arith

-- What a run that applied its plan with exit code 0 did.
record Ran (w : World) (id : Identity) (doc : Option ManifestDoc) (t t' : Tree) : Type 0 where
  force : Bool
  manifest : List Entry
  plan : Plan
  loaded : load_manifest doc ≡ gives manifest
  made : build_plan w id force manifest t ≡ gives plan
  fine : (apply_plan plan force t).1 ≡ none
  left : (apply_plan plan force t).0 ≡ t'

exit_of-zero :
    (r : Applied) (live : Live) {t' : Tree} {live' : Live}
    → exit_of r live ≡ (0, t', live')
    → (r.1 ≡ none) × (r.0 ≡ t')
exit_of-zero (t, some e) live h = absurd (exit_code-positive e (ap (λ x. x.0) h))
exit_of-zero (t, none) live h = (refl, ap (λ x. x.1) h)

then_project-zero :
    (w : World) (content : Option Text) (r : Applied) (live : Live) {t' : Tree} {live' : Live}
    → then_project w content r live ≡ (0, t', live')
    → (r.1 ≡ none) × (r.0 ≡ t')
then_project-zero w content (t, some e) live h = absurd (exit_code-positive e (ap (λ x. x.0) h))
then_project-zero w content (t, none) live h =
    let (l, e) = apply_projection w content live in (refl, (exit_of-zero (t, e) l h).1)

module _ (w : World) (id : Identity) (doc : Option ManifestDoc) (projection : Projection) (t : Tree)
    (live : Live) {t' : Tree} {live' : Live} where
  plan-Ran :
      (force : Bool) (manifest : List Entry) (plan : Plan) (content : Option Text)
      → load_manifest doc ≡ gives manifest
      → build_plan w id force manifest t ≡ gives plan
      → run_plan w apply force plan content t live ≡ (0, t', live')
      → Ran w id doc t t'
  unfolding run_plan
  plan-Ran force manifest plan content loaded made h =
      elim (Bool-cases (has_drift plan.files && not force)) [
        | inl refused ↦
            let bad : ◌≡◌ {A = ℕ} 2 0 = ap (λ x. x.0) (rw (run_plan, refused) at h) in
            absurd (omega arith)
        | inr free ↦
            let (fine, left) =
              then_project-zero w content (apply_plan plan force t) live
                (rw (run_plan, free) at h) in
            record {
              force = force;
              manifest = manifest;
              plan = plan;
              loaded = loaded;
              made = made;
              fine = fine;
              left = left;
            }
      ]

  mode-Ran :
      (force : Bool) (notes : Option Error)
      → run_mode w id apply force doc notes projection t live ≡ (0, t', live')
      → Ran w id doc t t'
  unfolding run_mode
  mode-Ran force notes h = elim (Outcome-cases (load_manifest doc)) [
    | inr (e, bad) ↦ absurd (exit_code-positive e (ap (λ x. x.0) (rw (run_mode, bad) at h)))
    | inl (manifest, loaded) ↦ elim (Outcome-cases (build_plan w id force manifest t)) [
      | inr (e, bad) ↦
          absurd (exit_code-positive e (ap (λ x. x.0) (rw (run_mode, loaded, bad) at h)))
      | inl (plan, made) ↦ elim (Outcome-cases (projection plan)) [
        | inr (e, foreign) ↦
            absurd
              (exit_code-positive e (ap (λ x. x.0) (rw (run_mode, loaded, made, foreign) at h)))
        | inl (content, planned) ↦
            plan-Ran force manifest plan content loaded made
              (rw (run_mode, loaded, made, planned) at h)
      ]
    ]
  ]

site_sync-Ran :
    (w : World) (id : Identity) (mode force : Text) (doc : Option ManifestDoc)
    (notes : Option Error) (projection : Projection) (t : Tree) (live : Live) {t' : Tree}
    {live' : Live}
    → parse_mode mode ≡ gives apply
    → run_site_sync w id mode force doc notes projection t live ≡ (0, t', live')
    → Ran w id doc t t'
unfolding run_site_sync
site_sync-Ran w id mode force doc notes projection t live parsed h =
    elim (Outcome-cases (parse_bool_flag force)) [
      | inr (e, bad) ↦
          absurd (exit_code-positive e (ap (λ x. x.0) (rw (run_site_sync, parsed, bad) at h)))
      | inl (f, given) ↦
          mode-Ran w id doc projection t live f notes (rw (run_site_sync, parsed, given) at h)
    ]

run_plan-IsResting :
    (w : World) (mode : Mode) (force : Bool) (plan : Plan) (content : Option Text) (t : Tree)
    (live : Live)
    → IsResting plan
    → (apply_projection w content live).1 ≡ none
    → let r = run_plan w mode force plan content t live in (r.0 ≡ 0) × (r.1 ≡ t)
unfolding run_plan
run_plan-IsResting w docs force plan content t live h fine = (refl, refl)
run_plan-IsResting w dry_run force plan content t live h fine =
    rw (run_plan, idle-has_drift plan.files h.idle) (refl, refl)
run_plan-IsResting w apply force plan content t live h fine =
    rw (run_plan, idle-has_drift plan.files h.idle, apply_plan-IsResting plan force t h, fine)
      (refl, refl)

-- After a run that ended with exit code 0 in apply mode, another run of the same version and
-- commit at any time, with or without force, in apply or in dry-run mode, ends with exit code 0 and
-- changes nothing in the site, unless the projection of this run refuses or its write raises. `hexdigest`
-- returns digests, and a printed lockfile is read back.
pub sync_twice :
    (w : World) (id : Identity) (mode force : Text) (doc : Option ManifestDoc)
    (notes : Option Error) (projection : Projection) (t t' : Tree) (live live' : Live)
    → ((x : Text) → IsDigest (w.sha x))
    → ((d : LockDoc) → w.load (w.dump d) ≡ some (mapping d))
    → parse_mode mode ≡ gives apply
    → run_site_sync w id mode force doc notes projection t live ≡ (0, t', live')
    → (mode' force' synced : Text) (forced : Bool) (notes' : Option Error)
      (content : Plan → Option Text) (projection' : Projection) (now : Live)
    → (parse_mode mode' ≡ gives apply) ⊎ (parse_mode mode' ≡ gives dry_run)
    → parse_bool_flag force' ≡ gives forced
    → ((plan : Plan) → projection' plan ≡ gives (content plan))
    → ((plan : Plan) → (apply_projection w (content plan) now).1 ≡ none)
    → let again = run_site_sync w (at_time id synced) mode' force' doc notes' projection' t' now in
      (again.0 ≡ 0) × (again.1 ≡ t')
unfolding run_site_sync run_mode
sync_twice w id mode force doc notes projection t t' live live' sha prints parsed ended mode' force'
      synced forced notes' content projection' now parsed' given passes writes =
    let r = site_sync-Ran w id mode force doc notes projection t live parsed ended in
    let s : IsSynced w id r.manifest t' = rw r.left at (
      apply_plan-IsSynced w id r.force doc r.manifest t r.plan sha prints r.loaded r.made r.fine) in
    let (plan, made, resting) = IsSynced-build_plan w id forced synced r.manifest t' s in
    elim parsed' [
      | inl m ↦
          rw (run_site_sync, m, given, run_mode, r.loaded, made, passes plan)
            (run_plan-IsResting w apply forced plan (content plan) t' now resting (writes plan))
      | inr m ↦
          rw (run_site_sync, m, given, run_mode, r.loaded, made, passes plan)
            (run_plan-IsResting w dry_run forced plan (content plan) t' now resting (writes plan))
    ]
