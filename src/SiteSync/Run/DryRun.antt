-- ===== src/SiteSync/Run/DryRun.antt =====
-- What a dry run tells.
use stayturgid.Base.{◌≡◌, refl, Bool, ◌&&◌, not, Option, Text, ◌⊎◌, inl, inr, Bool-cases}
use stayturgid.SiteSync.Site.{Tree, Live, Error, Outcome, gives, fails, ◌>>=◌, Outcome-cases}
use stayturgid.SiteSync.Manifest.{ManifestDoc, load_manifest}
use stayturgid.SiteSync.Plan.{World, Identity, Plan, build_plan, has_drift}
use stayturgid.SiteSync.Run.{
  apply, dry_run, parse_mode, parse_bool_flag, Exit, Projection, run_plan, run_outcome, run_mode,
  run_site_sync,
}

-- The first result leaves the site and the live config, and is a success or the second result.
abbrev pub Predicts : Tree → Live → Exit → Exit → Type 0
Predicts t live dry real = (dry.1 ≡ t) × (dry.2 ≡ live) × ((dry.0 ≡ 0) ⊎ (real ≡ dry))

run_plan-Predicts :
    (w : World) (force : Bool) (plan : Plan) (content : Option Text) (t : Tree) (live : Live)
    → Predicts t live
        (run_plan w dry_run force plan content t live)
        (run_plan w apply force plan content t live)
unfolding run_plan
run_plan-Predicts w force plan content t live =
    elim (Bool-cases (has_drift plan.files && not force)) [
      | inl refused ↦ rw (run_plan, refused) (refl, refl, inr refl)
      | inr free ↦ rw (run_plan, free) (refl, refl, inl refl)
    ]

pub run_outcome-Predicts :
    (w : World) (force : Bool) (projection : Projection) (o : Outcome Plan) (t : Tree) (live : Live)
    → Predicts t live
        (run_outcome w dry_run force projection o t live)
        (run_outcome w apply force projection o t live)
run_outcome-Predicts w force projection (fails e) t live = (refl, refl, inr refl)
run_outcome-Predicts w force projection (gives plan) t live =
    elim (Outcome-cases (projection plan)) [
      | inr (e, foreign) ↦ rw foreign (refl, refl, inr refl)
      | inl (content, agreed) ↦ rw agreed (run_plan-Predicts w force plan content t live)
    ]

-- A dry run leaves the site and the live OliveTin config as they are, and if its exit code is not 0, then
-- the same run in apply mode ends with this code too and leaves both as they are.
pub dry_run_predicts :
    (w : World) (id : Identity) (dry real force : Text) (doc : Option ManifestDoc)
    (notes : Option Error) (projection : Projection) (t : Tree) (live : Live)
    → parse_mode dry ≡ gives dry_run
    → parse_mode real ≡ gives apply
    → let told = run_site_sync w id dry force doc notes projection t live in
      (told.1 ≡ t)
      × (told.2 ≡ live)
      × ((told.0 ≡ 0) ⊎ (run_site_sync w id real force doc notes projection t live ≡ told))
unfolding run_site_sync run_mode
dry_run_predicts w id dry real force doc notes projection t live d r =
    elim (Outcome-cases (parse_bool_flag force)) [
      | inr (e, bad) ↦ rw (run_site_sync, d, r, bad) (refl, refl, inr refl)
      | inl (f, given) ↦
          rw (run_site_sync, d, r, given)
            (run_outcome-Predicts w f projection
              (load_manifest doc >>= λ manifest. build_plan w id f manifest t) t live)
    ]
