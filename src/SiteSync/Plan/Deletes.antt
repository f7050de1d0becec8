-- ===== src/SiteSync/Plan/Deletes.antt =====
-- The rows of the deletions.
use stayturgid.Base.{
  ◌≡◌, Bool, true, false, ◌||◌, not, Option, none, some, List, [], ◌∷◌, ◌++◌, arith, All,
  All-append, All-imp, Text, text_eq, text_eq_iff, member, Dict, get, Bool-cases, inl, inr,
}
use stayturgid.SiteSync.Site.{
  Node, file, folder, Tree, gives, >>=-eq-gives, generated_prefix, starts_with,
}
use stayturgid.SiteSync.Plan.{World, PlannedFile, delete_row, plan_deletes, is_skip}

-- What holds of the row of each path outside the manifest holds of all rows.
module _ {κ} (w : World) (force : Bool) (known : Dict Text) (t : Tree) (manifest : List Text)
    (G : Text → Type 0) (P : PlannedFile → Type κ)
    (each : (q : Text)
      → member q manifest ≡ false
      → G q
      → All P (delete_row w force (get q known) q (get q t))) where
  pub plan_deletes-All :
      (ps : List Text) {rows : List PlannedFile}
      → All G ps
      → plan_deletes w force known t manifest ps ≡ gives rows
      → All P rows
  unfolding plan_deletes
  plan_deletes-All [] {rows} g h = let e : rows ≡ [] = cc in rw e tt
  plan_deletes-All (q ∷ ps) {rows} g h = elim (Bool-cases (member q manifest)) [
    | inl listed ↦ plan_deletes-All ps g.1 (rw (plan_deletes, listed) at h)
    | inr gone ↦ elim (Bool-cases (not (starts_with generated_prefix q))) [
      | inl stray ↦ cc (rw (plan_deletes, gone, stray) at h)
      | inr own ↦
          let (rest, e, k) =
            >>=-eq-gives (plan_deletes w force known t manifest ps)
              (λ (rest : List PlannedFile).
                gives (delete_row w force (get q known) q (get q t) ++ rest))
              (rw (plan_deletes, gone, own) at h) in
          let same : rows ≡ delete_row w force (get q known) q (get q t) ++ rest = cc in
          rw same (
            All-append P (delete_row w force (get q known) q (get q t)) rest (each q gone g.0)
              (plan_deletes-All ps g.1 k))
    ]
  ]

All-any : (ps : List Text) → All (λ p. Unit {0}) ps
All-any [] = tt
All-any (p ∷ ps) = (tt, All-any ps)

-- A row of a path outside the manifest.
abbrev Foreign : List Text → PlannedFile → Type 0
Foreign manifest f = member f.path manifest ≡ false

delete_row-Foreign :
    (w : World) (force : Bool) (lock : Option Text) (manifest : List Text) (p : Text)
    (node : Option Node)
    → member p manifest ≡ false
    → All (Foreign manifest) (delete_row w force lock p node)
unfolding delete_row
delete_row-Foreign w force lock manifest p none h = tt
delete_row-Foreign w force lock manifest p (some folder) h = tt
delete_row-Foreign w force lock manifest p (some (file d)) h = (h, tt)

plan_deletes-Foreign :
    (w : World) (force : Bool) (known : Dict Text) (t : Tree) (manifest ps : List Text)
    {rows : List PlannedFile}
    → plan_deletes w force known t manifest ps ≡ gives rows
    → All (Foreign manifest) rows
plan_deletes-Foreign w force known t manifest ps h =
    plan_deletes-All w force known t manifest (λ q. Unit {0}) (Foreign manifest)
      (λ q gone u. delete_row-Foreign w force (get q known) manifest q (get q t) gone) ps
      (All-any ps) h

Foreign-others :
    (rows : List PlannedFile) (ps : List Text)
    → All (Foreign ps) rows
    → All (λ p. All (λ f. (not (text_eq f.path p) || is_skip f.action) ≡ true) rows) ps
Foreign-others rows [] h = tt
Foreign-others rows (p ∷ ps) h = (
  All-imp (Foreign (p ∷ ps)) (λ f. (not (text_eq f.path p) || is_skip f.action) ≡ true) rows
      (λ f k. ground (arith, text_eq_iff f.path p, text_eq_iff p f.path)) h,
  Foreign-others rows ps (All-imp (Foreign (p ∷ ps)) (Foreign ps) rows (λ f k. ground (arith)) h),
)

-- The deletions leave the paths of the manifest alone.
pub plan_deletes-others :
    (w : World) (force : Bool) (known : Dict Text) (t : Tree) (manifest ps : List Text)
    {rows : List PlannedFile}
    → plan_deletes w force known t manifest ps ≡ gives rows
    → All (λ p. All (λ f. (not (text_eq f.path p) || is_skip f.action) ≡ true) rows) manifest
plan_deletes-others w force known t manifest ps {rows} h =
    Foreign-others rows manifest (plan_deletes-Foreign w force known t manifest ps h)
