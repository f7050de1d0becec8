-- ===== src/SiteSync/Apply/Settles.antt =====
-- What an applied plan leaves: the files of the manifest, each with its rendering.
use mathlib.Core.Path.{subst}
use stayturgid.Base.{
  ◌≡◌, refl, sym, ap, ◌∙◌, Bool, true, false, ◌&&◌, not, Option, none, some, List, [], ◌∷◌, ◌++◌,
  arith, All, All-append, All-imp, All-and, Text, text_eq, text_eq_iff, text_eq_refl, Dict, get,
  assign, get-assign, Bool-cases, Option-cases, inl, inr,
}
use stayturgid.SiteSync.Site.{Node, file, folder, Tree, gives, under_generated}
use stayturgid.SiteSync.Manifest.{Entry, paths_of}
use stayturgid.SiteSync.Manifest.Paths.{IsDistinct}
use stayturgid.SiteSync.Plan.{
  World, create, overwrite, skip, PlannedFile, is_edited, plan_node, plan_content, plan_entries,
}
use stayturgid.SiteSync.Plan.Items.{plan_entries-Inverts}
use stayturgid.SiteSync.Plan.Settled.{Settled}
use stayturgid.SiteSync.Apply.{perform, apply_file, apply_files}
use stayturgid.SiteSync.Apply.Keeps.{Spares, get-apply_file, get-apply_files}

-- The row of a manifest path: it names the path, and brings the file about.
record Brings (p content : Text) (t : Tree) (f : PlannedFile) : Type 0 where
  names : f.path ≡ p
  brings :
      (t' : Tree)
      → get p t' ≡ get p t
      → (perform f.action f.path f.content t').1 ≡ none
      → get p (perform f.action f.path f.content t').0 ≡ some (file content)

get-assign_same :
    (p content : Text) (t : Tree) → get p (assign p (file content) t) ≡ some (file content)
get-assign_same p content t = rw (get-assign p p (file content) t, text_eq_refl p) refl

create-Brings :
    (p content : Text) (t : Tree)
    → Brings p content t
        (record { path = p; content = some content; action = create; drift = false })
unfolding perform
create-Brings p content t = record {
  names = refl;
  brings = λ t' same fine. get-assign_same p content t';
}

overwrite-Brings :
    (p content : Text) (t : Tree) (drift : Bool)
    → Brings p content t
        (record { path = p; content = some content; action = overwrite; drift = drift })
unfolding perform
overwrite-Brings p content t drift = record {
  names = refl;
  brings = λ t' same fine. get-assign_same p content t';
}

skip-Brings :
    (p content : Text) (t : Tree)
    → get p t ≡ some (file content)
    → Brings p content t (record { path = p; content = some content; action = skip; drift = false })
unfolding perform
skip-Brings p content t there = record { names = refl; brings = λ t' same fine. same ∙ there }

plan_node-Brings :
    (w : World) (force : Bool) (lock : Option Text) (p content : Text) (t : Tree)
    (node : Option Node) {f : PlannedFile}
    → get p t ≡ node
    → plan_node w force lock p content node ≡ gives f
    → Brings p content t f
unfolding plan_node
plan_node-Brings w force lock p content t none {f} e h =
    let same : f ≡ record { path = p; content = some content; action = create; drift = false } =
      cc in
    rw same (create-Brings p content t)
plan_node-Brings w force lock p content t (some folder) e h = cc
plan_node-Brings w force lock p content t (some (file d)) {f} e h =
    elim (Bool-cases (text_eq d content)) [
      | inl equal ↦
          let k = rw (plan_node, equal) at h in
          let same : f ≡ record { path = p; content = some content; action = skip; drift = false } =
            cc in
          let there : get p t ≡ some (file content) = rw ((text_eq_iff d content).0 equal) at e in
          rw same (skip-Brings p content t there)
      | inr differs ↦
          let k = rw (plan_node, differs) at h in
          let drift = is_edited (w.sha d) lock && not force in
          let same : f
              ≡ record { path = p; content = some content; action = overwrite; drift = drift } =
            cc in
          rw same (overwrite-Brings p content t drift)
    ]

-- The steps of a loop that did not fail.
apply_files-step :
    (f : PlannedFile) (fs : List PlannedFile) (t : Tree)
    → (apply_files (f ∷ fs) t).1 ≡ none
    → ((apply_file f t).1 ≡ none) × (apply_files (f ∷ fs) t ≡ apply_files fs (apply_file f t).0)
unfolding apply_files
apply_files-step f fs t h = elim (Option-cases (apply_file f t).1) [
  | inl fine ↦ (fine, rw (apply_files, fine) refl)
  | inr (e, raised) ↦ cc (rw (apply_files, raised) at h)
]

plan_content-Brings :
    (w : World) (force : Bool) (known : Dict Text) (t : Tree) (e : Entry) (content : Text)
    {f : PlannedFile}
    → plan_content w force known t e content ≡ gives f
    → (under_generated e.path ≡ true) × Brings e.path content t f
unfolding plan_content
plan_content-Brings w force known t e content h = elim (Bool-cases (under_generated e.path)) [
  | inl under ↦ (
    under,
    plan_node-Brings w force (get e.path known) e.path content t (get e.path t) refl
        (rw (plan_content, under) at h),
  )
  | inr outside ↦ cc (rw (plan_content, outside) at h)
]

apply_file-Brings :
    (p content : Text) (t t' : Tree) (f : PlannedFile)
    → under_generated p ≡ true
    → Brings p content t f
    → get p t' ≡ get p t
    → (apply_file f t').1 ≡ none
    → get p (apply_file f t').0 ≡ some (file content)
unfolding apply_file
apply_file-Brings p content t t' f under b same fine =
    let inside : under_generated f.path ≡ true = rw (b.names) under in
    rw (apply_file, inside) (b.brings t' same (rw (apply_file, inside) at fine))

-- The rows of other paths spare a path.
pub plan_entries-Spares :
    (p : Text) (w : World) (force : Bool) (known : Dict Text) (t : Tree) (es : List Entry)
    {r : List PlannedFile × List (Text × Text)}
    → plan_entries w force known t es ≡ gives r
    → All (λ q. text_eq p q ≡ false) (paths_of es)
    → All (Spares p) r.0
unfolding plan_entries
plan_entries-Spares p w force known t [] {r} h ne = let e : r ≡ ([], []) = cc in rw e tt
plan_entries-Spares p w force known t (e ∷ es) h ne =
    let i = plan_entries-Inverts w force known t e es h in
    let b = (plan_content-Brings w force known t e i.content i.planning).1 in
    rw i.split (
      rw b.names (let other = ne.0 in ground (arith, text_eq_iff p e.path, text_eq_iff e.path p)),
      plan_entries-Spares p w force known t es i.others ne.1,
    )

-- The rows of a manifest with distinct paths, applied to a site that is as planned on these paths
-- and before rows of other paths, bring every file about.
pub plan_entries-Settled :
    (w : World) (force : Bool) (known : Dict Text) (t : Tree) (es : List Entry)
    (ds : List PlannedFile) (t' : Tree) {r : List PlannedFile × List (Text × Text)}
    → plan_entries w force known t es ≡ gives r
    → IsDistinct (paths_of es)
    → All (λ p. All (Spares p) ds) (paths_of es)
    → All (λ p. get p t' ≡ get p t) (paths_of es)
    → (apply_files (r.0 ++ ds) t').1 ≡ none
    → Settled w (apply_files (r.0 ++ ds) t').0 es r.1
unfolding plan_entries
plan_entries-Settled w force known t [] ds t' {r} h distinct spared same fine =
    let e : r ≡ ([], []) = cc in rw e refl
plan_entries-Settled w force known t (e ∷ es) ds t' {r} h distinct spared same fine =
    let i = plan_entries-Inverts w force known t e es h in
    let (under, b) = plan_content-Brings w force known t e i.content i.planning in
    let (first, step) = apply_files-step i.planned (i.rest.0 ++ ds) t' (rw i.split at fine) in
    let t1 = (apply_file i.planned t').0 in
    let there : get e.path t1 ≡ some (file i.content) =
      apply_file-Brings e.path i.content t t' i.planned under b same.0 first in
    let kept : get e.path (apply_files (i.rest.0 ++ ds) t1).0 ≡ get e.path t1 =
      get-apply_files e.path (i.rest.0 ++ ds) t1 (
        All-append (Spares e.path) i.rest.0 ds
          (plan_entries-Spares e.path w force known t es i.others distinct.0) spared.0) in
    let same1 : All (λ p. get p t1 ≡ get p t) (paths_of es) =
      All-imp (λ p. (text_eq e.path p ≡ false) × (get p t' ≡ get p t)) (λ p. get p t1 ≡ get p t)
        (paths_of es) (λ p k. get-apply_file p i.planned t' (rw (b.names, k.0) refl) ∙ k.1)
        (All-and (λ p. text_eq e.path p ≡ false) (λ p. get p t' ≡ get p t) (paths_of es) distinct.0
          same.1) in
    let rest =
      plan_entries-Settled w force known t es ds t1 i.others distinct.1 spared.1 same1
        (rw (i.split, step) at fine) in
    let after : (apply_files (r.0 ++ ds) t').0 ≡ (apply_files (i.rest.0 ++ ds) t1).0 =
      ap (λ x. (apply_files (x.0 ++ ds) t').0) i.split ∙ ap (λ a. a.0) step in
    subst (λ u. Settled w u (e ∷ es) r.1) (sym after)
      (i.content, i.rest.1, i.rendering, under, kept ∙ there, ap (λ x. x.1) i.split, rest)
