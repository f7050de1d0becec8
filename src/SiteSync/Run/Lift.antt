-- ===== src/SiteSync/Run/Lift.antt =====
-- What holds of the site before a run and after an applied plan holds after the run.
use stayturgid.Base.{
  ◌≡◌, refl, sym, Bool, false, ◌&&◌, not, Option, none, some, List, Text, Bool-cases, inl, inr,
}
use mathlib.Core.Path.{subst}
use stayturgid.SiteSync.Site.{Tree, Live, Error, Outcome, gives, fails, ◌>>=◌, Outcome-cases}
use stayturgid.SiteSync.Manifest.{Entry, ManifestDoc, load_manifest}
use stayturgid.SiteSync.Plan.{World, Identity, Plan, build_plan, has_drift}
use stayturgid.SiteSync.Apply.{Applied, apply_plan}
use stayturgid.SiteSync.Run.{
  Mode, apply, dry_run, docs, parse_mode, parse_bool_flag, Projection, exit_of, apply_projection,
  then_project, run_plan, run_outcome, run_mode, run_site_sync,
}

exit_of-1 : (r : Applied) (live : Live) → (exit_of r live).1 ≡ r.0
exit_of-1 (t, none) live = refl
exit_of-1 (t, some e) live = refl

then_project-1 :
    (w : World) (content : Option Text) (r : Applied) (live : Live)
    → (then_project w content r live).1 ≡ r.0
then_project-1 w content (t, some e) live = refl
then_project-1 w content (t, none) live =
    let (l, e) = apply_projection w content live in exit_of-1 (t, e) l

module _ (w : World) (id : Identity) (t : Tree) (live : Live) (P : Tree → Type 0) (start : P t)
    (force : Bool)
    (applied : (manifest : List Entry) (plan : Plan)
      → build_plan w id force manifest t ≡ gives plan
      → (has_drift plan.files && not force) ≡ false
      → P (apply_plan plan force t).0) where
  lift_plan :
      (mode : Mode) (manifest : List Entry) (plan : Plan) (content : Option Text)
      → build_plan w id force manifest t ≡ gives plan
      → P (run_plan w mode force plan content t live).1
  unfolding run_plan
  lift_plan docs manifest plan content made = start
  lift_plan dry_run manifest plan content made = start
  lift_plan apply manifest plan content made =
      elim (Bool-cases (has_drift plan.files && not force)) [
        | inl refused ↦ rw (run_plan, refused) start
        | inr free ↦
            rw (run_plan, free)
              (subst P (sym (then_project-1 w content (apply_plan plan force t) live))
                (applied manifest plan made free))
      ]

  lift_outcome :
      (mode : Mode) (projection : Projection) (manifest : Outcome (List Entry))
      → P
          (run_outcome w mode force projection
            (manifest >>= λ m. build_plan w id force m t)
            t
            live).1
  lift_outcome mode projection (fails e) = start
  lift_outcome mode projection (gives m) = elim (Outcome-cases (build_plan w id force m t)) [
    | inr (e, bad) ↦ rw bad start
    | inl (plan, made) ↦ elim (Outcome-cases (projection plan)) [
      | inr (e, foreign) ↦ rw (made, foreign) start
      | inl (content, fine) ↦ rw (made, fine) (lift_plan mode m plan content made)
    ]
  ]

  pub lift_mode :
      (mode : Mode) (doc : Option ManifestDoc) (notes : Option Error) (projection : Projection)
      → P (run_mode w id mode force doc notes projection t live).1
  unfolding run_mode
  lift_mode docs doc notes projection = subst P (sym (exit_of-1 (t, notes) live)) start
  lift_mode dry_run doc notes projection = lift_outcome dry_run projection (load_manifest doc)
  lift_mode apply doc notes projection = lift_outcome apply projection (load_manifest doc)

  pub lift_run :
      (mode force_text : Text) (doc : Option ManifestDoc) (notes : Option Error)
      (projection : Projection)
      → parse_bool_flag force_text ≡ gives force
      → P (run_site_sync w id mode force_text doc notes projection t live).1
  unfolding run_site_sync
  lift_run mode force_text doc notes projection given = elim (Outcome-cases (parse_mode mode)) [
    | inr (e, bad) ↦ rw bad start
    | inl (m, fine) ↦ rw (fine, given) (lift_mode m doc notes projection)
  ]
