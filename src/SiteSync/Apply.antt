-- ===== src/SiteSync/Apply.antt =====
-- `apply_plan` of control/site_contract/site_sync.py. A failure leaves what was written before it.
pub mod Keeps
pub mod Settles
pub mod Steps
pub mod Synced
use stayturgid.Base.{
  Bool, true, false, ◌&&◌, not, Option, none, some, List, [], ◌∷◌, Text, if◌then◌else◌, get, assign,
  discard,
}
use stayturgid.SiteSync.Site.{
  Node, file, folder, Tree, Error, outside_generated, no_content, drifted, lockfile_relative,
  under_generated,
}
use stayturgid.SiteSync.Plan.{
  Action, create, overwrite, skip, delete, PlannedFile, Plan, is_skip, has_drift,
}

-- The site, and the error if one was raised.
abbrev pub Applied : Type 0
Applied = Tree × Option Error

abbrev pub unlink_file : Text → Option Node → Tree → Tree
unlink_file p none t = t
unlink_file p (some folder) t = t
unlink_file p (some (file text)) t = discard p t

abbrev pub write_content : Text → Option Text → Tree → Applied
write_content p none t = (t, some no_content)
write_content p (some text) t = (assign p (file text) t, none)

-- What is done for one planned file, within the generated directory.
unfoldable pub perform : Action → Text → Option Text → Tree → Applied
perform skip p content t = (t, none)
perform delete p content t = (unlink_file p (get p t) t, none)
perform create p content t = write_content p content t
perform overwrite p content t = write_content p content t

unfoldable pub apply_file : PlannedFile → Tree → Applied
unfolding perform
apply_file f t =
    if under_generated f.path
    then perform f.action f.path f.content t
    else (t, some outside_generated)

unfoldable pub apply_files : List PlannedFile → Tree → Applied
apply_files [] t = (t, none)
apply_files (f ∷ fs) t =
    let (t', raised) = apply_file f t in
    let rest = apply_files fs t' in elim raised [ some e ↦ (t', some e) | none ↦ rest ]

abbrev pub write_lock : Plan → Applied → Applied
write_lock plan (t, some e) = (t, some e)
write_lock plan (t, none) =
    if is_skip plan.lock_action
    then (t, none)
    else (assign lockfile_relative (file plan.lock_content) t, none)

unfoldable pub apply_plan : Plan → Bool → Tree → Applied
unfolding apply_files
apply_plan plan force t =
    if has_drift plan.files && not force
    then (t, some drifted)
    else write_lock plan (apply_files plan.files t)
