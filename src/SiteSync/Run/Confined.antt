-- ===== src/SiteSync/Run/Confined.antt =====
-- Where a run may write, in the site and outside.
use stayturgid.Base.{
  ◌≡◌, refl, ◌∙◌, Bool, true, false, ◌&&◌, not, Option, none, some, ◌⊎◌, List, [], ◌∷◌, Text,
  text_eq, text_eq_iff, get, Bool-cases, Option-cases, inl, inr,
}
use stayturgid.SiteSync.Site.{
  Tree, Live, Error, Outcome, gives, fails, ◌>>=◌, Outcome-cases, lockfile_relative,
  under_generated,
}
use stayturgid.SiteSync.Manifest.{ManifestDoc, load_manifest}
use stayturgid.SiteSync.Plan.{World, Identity, PlannedFile, Plan, build_plan, has_drift}
use stayturgid.SiteSync.Apply.{Applied, apply_file, apply_files, apply_plan}
use stayturgid.SiteSync.Apply.Keeps.{get-perform, get-write_lock}
use stayturgid.SiteSync.Run.Lift.{lift_run}
use stayturgid.SiteSync.Run.{
  Mode, apply, dry_run, docs, parse_mode, parse_bool_flag, Projection, exit_of, apply_projection,
  then_project, run_plan, run_outcome, run_parsed, run_mode, run_site_sync,
}
use stayturgid.SiteSync.Run.DryRun.{run_outcome-Predicts}

refused-ne :
    (q p : Text) → under_generated q ≡ true → under_generated p ≡ false → text_eq q p ≡ false
refused-ne q p inside outside = elim (Bool-cases (text_eq q p)) [
  | inr other ↦ other
  | inl same ↦ cc ((text_eq_iff q p).0 same)
]

module _ (p : Text) (outside : under_generated p ≡ false) where
  get-apply_file_outside : (f : PlannedFile) (t : Tree) → get p (apply_file f t).0 ≡ get p t
  unfolding apply_file
  get-apply_file_outside f t = elim (Bool-cases (under_generated f.path)) [
    | inr refused ↦ rw refused refl
    | inl under ↦
        rw under
          (get-perform p f.action f.path f.content t (rw (refused-ne f.path p under outside) refl))
  ]

  get-apply_files_outside :
      (fs : List PlannedFile) (t : Tree) → get p (apply_files fs t).0 ≡ get p t
  unfolding apply_files
  get-apply_files_outside [] t = refl
  get-apply_files_outside (f ∷ fs) t = elim (Option-cases (apply_file f t).1) [
    | inl fine ↦
        rw (apply_files, fine)
          (get-apply_files_outside fs (apply_file f t).0 ∙ get-apply_file_outside f t)
    | inr (e, raised) ↦ rw (apply_files, raised) (get-apply_file_outside f t)
  ]

  get-apply_plan_outside :
      (plan : Plan) (force : Bool) (t : Tree) → get p (apply_plan plan force t).0 ≡ get p t
  unfolding apply_plan under_generated
  get-apply_plan_outside plan force t = elim (Bool-cases (has_drift plan.files && not force)) [
    | inl refused ↦ rw (apply_plan, refused) refl
    | inr free ↦
        rw (apply_plan, free)
          (get-write_lock p plan (apply_files plan.files t)
              (refused-ne lockfile_relative p refl outside)
            ∙ get-apply_files_outside plan.files t)
  ]

exit_of-2 : (r : Applied) (live : Live) → (exit_of r live).2 ≡ live
exit_of-2 (t, none) live = refl
exit_of-2 (t, some e) live = refl

-- The live config is left as it was, or the projection gives a content for a plan, and the write of this
-- content was made.
abbrev pub Projected : World → Projection → Live → Live → Type 0
Projected w projection live live' =
    (live' ≡ live)
    ⊎ ((plan : Plan) × (content : Text) × (projection plan ≡ gives (some content))
        × (live' ≡ (w.write_live content live).0))

run_plan-Projected :
    (w : World) (force : Bool) (projection : Projection) (plan : Plan) (content : Option Text)
    (t : Tree) (live : Live)
    → projection plan ≡ gives content
    → Projected w projection live (run_plan w apply force plan content t live).2
unfolding run_plan apply_projection
run_plan-Projected w force projection plan content t live planned =
    elim (Bool-cases (has_drift plan.files && not force)) [
      | inl refused ↦ rw (run_plan, refused) (inl refl)
      | inr free ↦ rw (run_plan, free) (written content planned (apply_plan plan force t))
    ]
  where
    written :
        (c : Option Text)
        → projection plan ≡ gives c
        → (r : Applied) → Projected w projection live (then_project w c r live).2
    written c p (u, some e) = inl refl
    written none p (u, none) = inl refl
    written (some text) p (u, none) = inr (
      plan,
      text,
      p,
      exit_of-2 (u, (apply_projection w (some text) live).1) (w.write_live text live).0,
    )

run_outcome-Projected :
    (w : World) (force : Bool) (projection : Projection) (o : Outcome Plan) (t : Tree) (live : Live)
    → Projected w projection live (run_outcome w apply force projection o t live).2
run_outcome-Projected w force projection (fails e) t live = inl refl
run_outcome-Projected w force projection (gives plan) t live =
    elim (Outcome-cases (projection plan)) [
      | inr (e, foreign) ↦ rw foreign (inl refl)
      | inl (content, planned) ↦
          rw planned (run_plan-Projected w force projection plan content t live planned)
    ]

-- What a run leaves of the live config, by its mode.
abbrev pub LiveAfter : World → Outcome Mode → Projection → Live → Live → Type 0
LiveAfter w (gives apply) projection live live' = Projected w projection live live'
LiveAfter w (gives dry_run) projection live live' = live' ≡ live
LiveAfter w (gives docs) projection live live' = live' ≡ live
LiveAfter w (fails e) projection live live' = live' ≡ live

run_parsed-LiveAfter :
    (w : World) (id : Identity) (mode : Outcome Mode) (force : Outcome Bool)
    (doc : Option ManifestDoc) (notes : Option Error) (projection : Projection) (t : Tree)
    (live : Live)
    → LiveAfter w mode projection live (run_parsed w id mode force doc notes projection t live).2
unfolding run_mode
run_parsed-LiveAfter w id (fails e) force doc notes projection t live = refl
run_parsed-LiveAfter w id (gives apply) (fails e) doc notes projection t live = inl refl
run_parsed-LiveAfter w id (gives dry_run) (fails e) doc notes projection t live = refl
run_parsed-LiveAfter w id (gives docs) (fails e) doc notes projection t live = refl
run_parsed-LiveAfter w id (gives apply) (gives f) doc notes projection t live =
    run_outcome-Projected w f projection
      (load_manifest doc >>= λ manifest. build_plan w id f manifest t) t live
run_parsed-LiveAfter w id (gives dry_run) (gives f) doc notes projection t live =
    (run_outcome-Predicts w f projection
      (load_manifest doc >>= λ manifest. build_plan w id f manifest t) t live).1
run_parsed-LiveAfter w id (gives docs) (gives f) doc notes projection t live =
    exit_of-2 (t, notes) live

get-run_site_sync :
    (p : Text)
    → under_generated p ≡ false
    → (w : World) (id : Identity) (t : Tree) (live : Live) (mode force : Text)
      (doc : Option ManifestDoc) (notes : Option Error) (projection : Projection)
    → get p (run_site_sync w id mode force doc notes projection t live).1 ≡ get p t
unfolding run_site_sync
get-run_site_sync p outside w id t live mode force doc notes projection =
    elim (Outcome-cases (parse_bool_flag force)) [
      | inl (f, given) ↦
          lift_run w id t live (λ u. get p u ≡ get p t) refl f
            (λ manifest plan made free. get-apply_plan_outside p outside plan f t) mode force doc
            notes projection given
      | inr (e, bad) ↦ elim (Outcome-cases (parse_mode mode)) [
        | inr (x, unknown) ↦ rw unknown refl
        | inl (m, fine) ↦ rw (fine, bad) refl
      ]
    ]

-- What a run writes, in any mode, with or without force, whether it succeeds or fails half-way: a path of
-- the site outside the generated directory is as it was, and the live OliveTin config, which stands
-- outside the site, is as it was or, in apply mode only, as the write of a content left it that the
-- projection gives for a plan.
pub sync_confined :
    (p : Text)
    → under_generated p ≡ false
    → (w : World) (id : Identity) (t : Tree) (live : Live) (mode force : Text)
      (doc : Option ManifestDoc) (notes : Option Error) (projection : Projection)
    → let r = run_site_sync w id mode force doc notes projection t live in
      (get p r.1 ≡ get p t) × LiveAfter w (parse_mode mode) projection live r.2
unfolding run_site_sync
sync_confined p outside w id t live mode force doc notes projection = (
  get-run_site_sync p outside w id t live mode force doc notes projection,
  run_parsed-LiveAfter w id (parse_mode mode) (parse_bool_flag force) doc notes projection t live,
)
