-- ===== src/SiteSync/Apply/Keeps.antt =====
-- What applying a plan does at one path.
use stayturgid.Base.{
  ◌≡◌, refl, ◌∙◌, Bool, true, false, ◌||◌, ◌&&◌, not, Option, none, some, List, [], ◌∷◌, arith, All,
  Text, text_eq, Bool-cases, Option-cases, inl, inr, get, get-assign, get-discard,
}
use stayturgid.SiteSync.Site.{Node, file, folder, Tree, lockfile_relative, under_generated}
use stayturgid.SiteSync.Plan.{
  Action, create, overwrite, skip, delete, PlannedFile, Plan, is_skip, has_drift,
}
use stayturgid.SiteSync.Apply.{
  perform, apply_file, apply_files, write_lock, apply_plan, Applied, write_content, unlink_file,
}

-- The row is of another path, or skips.
abbrev pub Spares : Text → PlannedFile → Type 0
Spares p f = (not (text_eq f.path p) || is_skip f.action) ≡ true

get-write_content :
    (p q : Text) (content : Option Text) (t : Tree)
    → text_eq q p ≡ false
    → get p (write_content q content t).0 ≡ get p t
get-write_content p q none t ne = refl
get-write_content p q (some text) t ne = rw (get-assign q p (file text) t, ne)

get-unlink_file :
    (p q : Text) (node : Option Node) (t : Tree)
    → text_eq q p ≡ false
    → get p (unlink_file q node t) ≡ get p t
get-unlink_file p q none t ne = refl
get-unlink_file p q (some folder) t ne = refl
get-unlink_file p q (some (file text)) t ne = rw (get-discard q p t, ne)

pub get-perform :
    (p : Text) (action : Action) (q : Text) (content : Option Text) (t : Tree)
    → (not (text_eq q p) || is_skip action) ≡ true
    → get p (perform action q content t).0 ≡ get p t
unfolding perform
get-perform p skip q content t h = refl
get-perform p delete q content t h = get-unlink_file p q (get q t) t (ground arith)
get-perform p create q content t h = get-write_content p q content t (ground arith)
get-perform p overwrite q content t h = get-write_content p q content t (ground arith)

pub get-apply_file :
    (p : Text) (f : PlannedFile) (t : Tree) → Spares p f → get p (apply_file f t).0 ≡ get p t
unfolding apply_file
get-apply_file p f t h = elim (Bool-cases (under_generated f.path)) [
  | inl inside ↦ rw inside (get-perform p f.action f.path f.content t h)
  | inr outside ↦ rw outside
]

pub get-apply_files :
    (p : Text) (fs : List PlannedFile) (t : Tree)
    → All (Spares p) fs
    → get p (apply_files fs t).0 ≡ get p t
unfolding apply_files
get-apply_files p [] t h = refl
get-apply_files p (f ∷ fs) t h = elim (Option-cases (apply_file f t).1) [
  | inl fine ↦
      rw (apply_files, fine)
        (get-apply_files p fs (apply_file f t).0 h.1 ∙ get-apply_file p f t h.0)
  | inr (e, raised) ↦ rw (apply_files, raised) (get-apply_file p f t h.0)
]

pub get-write_lock :
    (p : Text) (plan : Plan) (r : Applied)
    → text_eq lockfile_relative p ≡ false
    → get p (write_lock plan r).0 ≡ get p r.0
get-write_lock p plan (t, some e) ne = refl
get-write_lock p plan (t, none) ne = elim (Bool-cases (is_skip plan.lock_action)) [
  | inl same ↦ rw same
  | inr new ↦ rw (new, get-assign lockfile_relative p (file plan.lock_content) t, ne)
]

-- A path that every row spares stays as it is, unless it is the lockfile's.
pub get-apply_plan :
    (p : Text) (plan : Plan) (force : Bool) (t : Tree)
    → text_eq lockfile_relative p ≡ false
    → All (Spares p) plan.files
    → get p (apply_plan plan force t).0 ≡ get p t
unfolding apply_plan
get-apply_plan p plan force t ne h = elim (Bool-cases (has_drift plan.files && not force)) [
  | inl refused ↦ rw refused
  | inr free ↦
      rw free
        (get-write_lock p plan (apply_files plan.files t) ne ∙ get-apply_files p plan.files t h)
]
