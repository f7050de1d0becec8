-- ===== src/SiteSync/Apply/Steps.antt =====
-- The steps of an applied plan.
use stayturgid.Base.{
  ◌≡◌, refl, ap, Bool, true, false, ◌&&◌, not, Option, none, some, List, [], ◌∷◌, arith, All, Text,
  text_eq, text_eq_iff, Dict, get, get-assign, Bool-cases, Option-cases, inl, inr,
}
use stayturgid.SiteSync.Site.{Node, file, folder, Tree, gives, lockfile_relative, under_generated}
use stayturgid.SiteSync.Manifest.{Entry, paths_of}
use stayturgid.SiteSync.Manifest.Paths.{Fits}
use stayturgid.SiteSync.Lock.{LockDoc, build_lockfile_document, hash_map}
use stayturgid.SiteSync.Lock.Hashes.{IsDigest, IsClean}
use stayturgid.SiteSync.Plan.{
  World, Identity, Action, create, overwrite, skip, delete, PlannedFile, Plan, plan_entries,
  is_skip, has_content_work, is_noop, lock_write, finish_plan, has_drift,
}
use stayturgid.SiteSync.Plan.Items.{plan_entries-Inverts}
use stayturgid.SiteSync.Apply.{perform, apply_file, apply_files, write_lock, apply_plan, Applied}

-- Rows that all skip change nothing.
perform-skip :
    (a : Action) (p : Text) (content : Option Text) (t : Tree)
    → is_skip a ≡ true
    → (perform a p content t).0 ≡ t
unfolding perform
perform-skip skip p content t h = refl
perform-skip delete p content t h = cc
perform-skip create p content t h = cc
perform-skip overwrite p content t h = cc

apply_file-skip : (f : PlannedFile) (t : Tree) → is_skip f.action ≡ true → (apply_file f t).0 ≡ t
unfolding apply_file
apply_file-skip f t h = elim (Bool-cases (under_generated f.path)) [
  | inl under ↦ rw under (perform-skip f.action f.path f.content t h)
  | inr outside ↦ rw outside refl
]

pub apply_files-skip :
    (fs : List PlannedFile) (t : Tree) → has_content_work fs ≡ false → (apply_files fs t).0 ≡ t
unfolding apply_files has_content_work
apply_files-skip [] t h = refl
apply_files-skip (f ∷ fs) t h =
    let same = apply_file-skip f t (ground arith) in
    elim (Option-cases (apply_file f t).1) [
      | inl fine ↦ rw (apply_files, fine, same) (apply_files-skip fs t (ground arith))
      | inr (e, raised) ↦ rw (apply_files, raised) same
    ]

pub write_lock-kept :
    (plan : Plan) (r : Applied) → is_skip plan.lock_action ≡ true → (write_lock plan r).0 ≡ r.0
write_lock-kept plan (t, some e) h = refl
write_lock-kept plan (t, none) h = rw h refl

pub write_lock-written :
    (plan : Plan) (r : Applied)
    → r.1 ≡ none
    → is_skip plan.lock_action ≡ false
    → get lockfile_relative (write_lock plan r).0 ≡ some (file plan.lock_content)
write_lock-written plan (t, some e) fine h = cc
write_lock-written plan (t, none) fine h =
    rw (h, get-assign lockfile_relative lockfile_relative (file plan.lock_content) t) refl

write_lock-fine : (plan : Plan) (r : Applied) → (write_lock plan r).1 ≡ none → r.1 ≡ none
write_lock-fine plan (t, some e) h = cc
write_lock-fine plan (t, none) h = refl

pub apply_plan-step :
    (plan : Plan) (force : Bool) (t : Tree)
    → (apply_plan plan force t).1 ≡ none
    → ((apply_files plan.files t).1 ≡ none)
      × (apply_plan plan force t ≡ write_lock plan (apply_files plan.files t))
unfolding apply_plan
apply_plan-step plan force t h = elim (Bool-cases (has_drift plan.files && not force)) [
  | inl refused ↦ cc (rw (apply_plan, refused) at h)
  | inr free ↦ (
    write_lock-fine plan (apply_files plan.files t) (rw (apply_plan, free) at h),
    rw (apply_plan, free) refl,
  )
]

pub finish_plan-rest :
    (w : World) (id : Identity) (t : Tree) (lock : Option LockDoc) (known : Dict Text)
    (rows : List PlannedFile) (hashes : List (Text × Text))
    → (not (has_content_work rows) && is_noop id known (hash_map hashes []) lock) ≡ true
    → (finish_plan w id t lock known rows hashes).lock_action ≡ skip
unfolding finish_plan
finish_plan-rest w id t lock known rows hashes h = rw h refl

pub finish_plan-write :
    (w : World) (id : Identity) (t : Tree) (lock : Option LockDoc) (known : Dict Text)
    (rows : List PlannedFile) (hashes : List (Text × Text))
    → (not (has_content_work rows) && is_noop id known (hash_map hashes []) lock) ≡ false
    → let new = w.dump (build_lockfile_document id.version id.commit id.synced hashes) in
      let plan = finish_plan w id t lock known rows hashes in
      (plan.lock_action ≡ lock_write new (get lockfile_relative t)) × (plan.lock_content ≡ new)
unfolding finish_plan
finish_plan-write w id t lock known rows hashes h = (rw h refl, rw h refl)

-- A text that is not written again stands there already.
pub lock_write-skip :
    (new : Text) (node : Option Node)
    → is_skip (lock_write new node) ≡ true
    → node ≡ some (file new)
unfolding lock_write
lock_write-skip new none h = cc
lock_write-skip new (some folder) h = cc
lock_write-skip new (some (file text)) h = elim (Bool-cases (text_eq text new)) [
  | inl same ↦ ap (λ x. some (file x)) ((text_eq_iff text new).0 same)
  | inr differs ↦ cc (rw (lock_write, differs) at h)
]

pub plan_entries-IsClean :
    (w : World) (force : Bool) (known : Dict Text) (t : Tree) (es : List Entry)
    {r : List PlannedFile × List (Text × Text)}
    → ((x : Text) → IsDigest (w.sha x))
    → All Fits (paths_of es)
    → plan_entries w force known t es ≡ gives r
    → All IsClean r.1
unfolding plan_entries
plan_entries-IsClean w force known t [] {r} sha fit h = let e : r ≡ ([], []) = cc in rw e tt
plan_entries-IsClean w force known t (e ∷ es) {r} sha fit h =
    let i = plan_entries-Inverts w force known t e es h in
    rw i.split (
      record {
        path_stripped = (fit.0).stripped;
        path_given = (fit.0).given;
        digest = sha i.content;
      },
      plan_entries-IsClean w force known t es sha fit.1 i.others,
    )

pub All-same : (t : Tree) (ps : List Text) → All (λ p. get p t ≡ get p t) ps
All-same t [] = tt
All-same t (p ∷ ps) = (refl, All-same t ps)
