-- ===== src/SiteSync/Plan/Items.antt =====
-- The rows of a plan.
use stayturgid.Base.{
  ◌≡◌, refl, Bool, true, false, ◌||◌, not, Option, none, some, List, [], ◌∷◌, ◌++◌, arith, All,
  All-imp, Text, text_eq, text_eq_iff, text_eq_refl, Option-cases, inl, inr, Dict, get, sorted_set,
  sorted_set-All,
}
use stayturgid.SiteSync.Site.{
  Node, file, folder, Tree, gives, >>=-eq-gives, refuse_if, Outcome-cases, outside_generated,
  under_generated,
}
use stayturgid.SiteSync.Manifest.{paths_of, Entry}
use stayturgid.SiteSync.Lock.{LockDoc, load_lockfile, lockfile_hashes}
use stayturgid.SiteSync.Lock.Hashes.{is_given}
use stayturgid.SiteSync.Plan.Deletes.{plan_deletes-All}
use stayturgid.SiteSync.Plan.{
  World, Identity, PlannedFile, Plan, rendered, is_edited, plan_node, plan_content, plan_entries,
  keys_of, delete_row, plan_deletes, is_skip, finish_plan, build_plan,
}

-- The steps of a loop over the manifest that did not fail.
pub record Inverts (w : World) (force : Bool) (known : Dict Text) (tree : Tree) (e : Entry)
    (es : List Entry) (r : List PlannedFile × List (Text × Text)) : Type 0 where
  pub content : Text
  pub planned : PlannedFile
  pub rest : List PlannedFile × List (Text × Text)
  pub rendering : rendered w e ≡ gives content
  pub planning : plan_content w force known tree e content ≡ gives planned
  pub others : plan_entries w force known tree es ≡ gives rest
  pub split : r ≡ (planned ∷ rest.0, (e.path, w.sha content) ∷ rest.1)

pub plan_entries-Inverts :
    (w : World) (force : Bool) (known : Dict Text) (tree : Tree) (e : Entry) (es : List Entry)
    {r : List PlannedFile × List (Text × Text)}
    → plan_entries w force known tree (e ∷ es) ≡ gives r
    → Inverts w force known tree e es r
unfolding plan_entries
plan_entries-Inverts w force known tree e es {r} h = elim (Outcome-cases (rendered w e)) [
  | inr (x, bad) ↦ cc (rw (plan_entries, bad) at h)
  | inl (content, fine) ↦ elim (Outcome-cases (plan_content w force known tree e content)) [
    | inr (x, bad) ↦ cc (rw (plan_entries, fine, bad) at h)
    | inl (planned, done) ↦ elim (Outcome-cases (plan_entries w force known tree es)) [
      | inr (x, bad) ↦ cc (rw (plan_entries, fine, done, bad) at h)
      | inl (rest, more) ↦
          let k : gives (planned ∷ rest.0, (e.path, w.sha content) ∷ rest.1) ≡ gives r =
            rw (plan_entries, fine, done, more) at h in
          record {
            content = content;
            planned = planned;
            rest = rest;
            rendering = fine;
            planning = done;
            others = more;
            split = cc;
          }
    ]
  ]
]

is_given-get : (d : Dict Text) → All (λ k. is_given (get k d) ≡ true) (keys_of d)
unfolding get
is_given-get [] = tt
is_given-get ((k, v) ∷ d) = (
  rw (get, text_eq_refl k),
  All-imp (λ j. is_given (get j d) ≡ true) (λ j. is_given (get j ((k, v) ∷ d)) ≡ true) (keys_of d)
      (λ j h. ground arith) (is_given-get d),
)

-- Every path the deletions go through has a hash.
pub keys-is_given : (d : Dict Text) → All (λ k. is_given (get k d) ≡ true) (sorted_set (keys_of d))
keys-is_given d = sorted_set-All (λ k. is_given (get k d) ≡ true) (keys_of d) (is_given-get d)

-- A row of the path `p` skips, or counts as drift.
abbrev pub Guards : Text → PlannedFile → Type 0
Guards p f = (not (text_eq f.path p) || (is_skip f.action || f.drift)) ≡ true

-- A file `c` at `p` that is not as the lock says.
module _ (w : World) (known : Dict Text) (tree : Tree) (p c : Text)
    (there : get p tree ≡ some (file c)) (edited : is_edited (w.sha c) (get p known) ≡ true) where
  plan_node-Guards :
      (q content : Text) (node : Option Node) {f : PlannedFile}
      → get q tree ≡ node
      → plan_node w false (get q known) q content node ≡ gives f
      → Guards p f
  unfolding plan_node
  plan_node-Guards q content none e h = ground (arith, text_eq_iff q p)
  plan_node-Guards q content (some folder) e h = cc
  plan_node-Guards q content (some (file d)) e h = ground (arith, text_eq_iff q p)

  plan_content-Guards :
      (e : Entry) (content : Text) {f : PlannedFile}
      → plan_content w false known tree e content ≡ gives f
      → Guards p f
  unfolding plan_content
  plan_content-Guards e content h =
      let (u, k, under) =
        >>=-eq-gives (refuse_if (not (under_generated e.path)) outside_generated)
          (λ (v : Unit {0}). plan_node w false (get e.path known) e.path content (get e.path tree))
          h in
      plan_node-Guards e.path content (get e.path tree) refl k

  pub plan_entries-Guards :
      (es : List Entry) {r : List PlannedFile × List (Text × Text)}
      → plan_entries w false known tree es ≡ gives r
      → All (Guards p) r.0
  unfolding plan_entries
  plan_entries-Guards [] {r} h = let e : r ≡ ([], []) = cc in rw e tt
  plan_entries-Guards (e ∷ es) h =
      let i = plan_entries-Inverts w false known tree e es h in
      rw i.split (plan_content-Guards e i.content i.planning, plan_entries-Guards es i.others)

  delete_row-Guards :
      (q : Text) (node : Option Node)
      → get q tree ≡ node
      → is_given (get q known) ≡ true
      → All (Guards p) (delete_row w false (get q known) q node)
  unfolding delete_row
  delete_row-Guards q none e g = tt
  delete_row-Guards q (some folder) e g = tt
  delete_row-Guards q (some (file d)) e g = elim (Option-cases (get q known)) [
    | inl missing ↦ cc (rw missing at g)
    | inr (lock, found) ↦ rw found (ground (arith, text_eq_iff q p), tt)
  ]

  pub plan_deletes-Guards :
      (manifest ps : List Text) {rows : List PlannedFile}
      → All (λ q. is_given (get q known) ≡ true) ps
      → plan_deletes w false known tree manifest ps ≡ gives rows
      → All (Guards p) rows
  plan_deletes-Guards manifest ps =
      plan_deletes-All w false known tree manifest (λ q. is_given (get q known) ≡ true) (Guards p)
        (λ q gone g. delete_row-Guards q (get q tree) refl g) ps

-- The steps of a plan that was made.
pub record Built (w : World) (id : Identity) (force : Bool) (manifest : List Entry) (tree : Tree)
    (plan : Plan) : Type 0 where
  pub lock : Option LockDoc
  pub known : Dict Text
  pub planned : List PlannedFile × List (Text × Text)
  pub deletes : List PlannedFile
  pub locking : load_lockfile w.load tree ≡ gives lock
  pub hashing : lockfile_hashes lock ≡ gives known
  pub planning : plan_entries w force known tree manifest ≡ gives planned
  pub deleting :
      plan_deletes w force known tree (paths_of manifest) (sorted_set (keys_of known))
      ≡ gives deletes
  pub made : finish_plan w id tree lock known (planned.0 ++ deletes) planned.1 ≡ plan

pub build_plan-Built :
    (w : World) (id : Identity) (force : Bool) (manifest : List Entry) (tree : Tree) {plan : Plan}
    → build_plan w id force manifest tree ≡ gives plan
    → Built w id force manifest tree plan
unfolding build_plan
build_plan-Built w id force manifest tree {plan} h =
    elim (Outcome-cases (load_lockfile w.load tree)) [
      | inr (x, bad) ↦ cc (rw (build_plan, bad) at h)
      | inl (lock, locking) ↦ elim (Outcome-cases (lockfile_hashes lock)) [
        | inr (x, bad) ↦ cc (rw (build_plan, locking, bad) at h)
        | inl (known, hashing) ↦ elim (Outcome-cases (plan_entries w force known tree manifest)) [
          | inr (x, bad) ↦ cc (rw (build_plan, locking, hashing, bad) at h)
          | inl (planned, planning) ↦
              elim (Outcome-cases (
                plan_deletes w force known tree (paths_of manifest) (sorted_set (keys_of known)))) [
                  | inr (x, bad) ↦ cc (rw (build_plan, locking, hashing, planning, bad) at h)
                  | inl (deletes, deleting) ↦
                      let k : gives
                            (finish_plan w id tree lock known (planned.0 ++ deletes) planned.1)
                          ≡ gives plan =
                        rw (build_plan, locking, hashing, planning, deleting) at h in
                      record {
                        lock = lock;
                        known = known;
                        planned = planned;
                        deletes = deletes;
                        locking = locking;
                        hashing = hashing;
                        planning = planning;
                        deleting = deleting;
                        made = cc;
                      }
                ]
        ]
      ]
    ]

pub files-finish_plan :
    (w : World) (id : Identity) (tree : Tree) (lock : Option LockDoc) (known : Dict Text)
    (fs : List PlannedFile) (hashes : List (Text × Text))
    → (finish_plan w id tree lock known fs hashes).files ≡ fs
unfolding finish_plan
files-finish_plan w id tree lock known fs hashes = ground arith
