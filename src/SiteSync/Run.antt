-- ===== src/SiteSync/Run.antt =====
-- `run_site_sync` of control/site_contract/site_sync.py, with the text of its docs mode as an argument. The
-- live OliveTin config stands outside the site: what its projection gives for a plan is an argument, and
-- its write is one of the last steps of a run in apply mode.
pub mod Lift
pub mod Safety
pub mod Twice
pub mod Confined
pub mod DryRun
use stayturgid.Base.{
  ℕ, Bool, true, false, ◌&&◌, not, Option, none, some, List, [], ◌∷◌, Text, codes, text_eq, member,
  strip, lower, if◌then◌else◌,
}
use stayturgid.SiteSync.Site.{
  Tree, Live, Error, bad_argument, not_written, Outcome, gives, fails, ◌>>=◌, exit_code,
}
use stayturgid.SiteSync.Manifest.{Entry, ManifestDoc, load_manifest}
use stayturgid.SiteSync.Plan.{World, Identity, Plan, build_plan, has_drift}
use stayturgid.SiteSync.Apply.{Applied, apply_plan}

pub data Mode : Type 0 where
  apply dry_run docs : Mode

unfoldable pub parse_mode : Text → Outcome Mode
parse_mode value =
    let mode = lower (strip value) in
    if text_eq mode (codes "apply")
    then gives apply
    else if text_eq mode (codes "dry-run")
    then gives dry_run
    else if text_eq mode (codes "docs")
    then gives docs
    else fails bad_argument

unfoldable pub parse_bool_flag : Text → Outcome Bool
parse_bool_flag value =
    let text = lower (strip value) in
    if member text ([] ∷ codes "0" ∷ codes "false" ∷ codes "no" ∷ codes "off" ∷ [])
    then gives false
    else if member text (codes "1" ∷ codes "true" ∷ codes "yes" ∷ codes "on" ∷ [])
    then gives true
    else fails bad_argument

-- An exit code, with the site and the live OliveTin config.
abbrev pub Exit : Type 0
Exit = ℕ × Tree × Live

abbrev pub exit_of : Applied → Live → Exit
exit_of (t, none) live = (0, t, live)
exit_of (t, some e) live = (exit_code e, t, live)

-- `apply_projection`, of the content to write if the planned action is `overwrite`.
unfoldable pub apply_projection : World → Option Text → Live → Live × Option Error
apply_projection w none live = (live, none)
apply_projection w (some content) live =
    let (l, raised) = w.write_live content live in (l, if raised then some not_written else none)

-- The projection is written after the site, if that raised nothing.
abbrev pub then_project : World → Option Text → Applied → Live → Exit
then_project w content (t, some e) live = (exit_code e, t, live)
then_project w content (t, none) live =
    let (l, e) = apply_projection w content live in exit_of (t, e) l

unfoldable pub run_plan : World → Mode → Bool → Plan → Option Text → Tree → Live → Exit
run_plan w docs force plan content t live = (0, t, live)
run_plan w dry_run force plan content t live =
    (if has_drift plan.files && not force then 2 else 0, t, live)
run_plan w apply force plan content t live =
    if has_drift plan.files && not force
    then (2, t, live)
    else then_project w content (apply_plan plan force t) live

-- What `_plan_olivetin_projection` gives for a plan: it raises, there is nothing to write, or a content.
abbrev pub Projection : Type 0
Projection = Plan → Outcome (Option Text)

-- The projection is planned before any write.
abbrev pub run_projected : World → Mode → Bool → Plan → Outcome (Option Text) → Tree → Live → Exit
run_projected w mode force plan (gives content) t live = run_plan w mode force plan content t live
run_projected w mode force plan (fails e) t live = (exit_code e, t, live)

abbrev pub run_outcome : World → Mode → Bool → Projection → Outcome Plan → Tree → Live → Exit
run_outcome w mode force projection (fails e) t live = (exit_code e, t, live)
run_outcome w mode force projection (gives plan) t live =
    run_projected w mode force plan (projection plan) t live

-- Past the parsing of the arguments; `notes` is what writing the documentation raised.
unfoldable pub run_mode :
    World
    → Identity
    → Mode
    → Bool
    → Option ManifestDoc
    → Option Error
    → Projection
    → Tree
    → Live
    → Exit
run_mode w id docs force doc notes projection t live = exit_of (t, notes) live
run_mode w id dry_run force doc notes projection t live =
    run_outcome w dry_run force projection
      (load_manifest doc >>= λ manifest. build_plan w id force manifest t) t live
run_mode w id apply force doc notes projection t live =
    run_outcome w apply force projection
      (load_manifest doc >>= λ manifest. build_plan w id force manifest t) t live

abbrev pub run_parsed :
    World
    → Identity
    → Outcome Mode
    → Outcome Bool
    → Option ManifestDoc
    → Option Error
    → Projection
    → Tree
    → Live
    → Exit
run_parsed w id (fails e) force doc notes projection t live = (exit_code e, t, live)
run_parsed w id (gives mode) (fails e) doc notes projection t live = (exit_code e, t, live)
run_parsed w id (gives mode) (gives force) doc notes projection t live =
    run_mode w id mode force doc notes projection t live

unfoldable pub run_site_sync :
    World
    → Identity
    → Text
    → Text
    → Option ManifestDoc
    → Option Error
    → Projection
    → Tree
    → Live
    → Exit
run_site_sync w id mode force doc notes projection t live =
    run_parsed w id (parse_mode mode) (parse_bool_flag force) doc notes projection t live
