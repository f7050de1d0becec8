-- ===== src/SiteSync/Plan/Settled.antt =====
-- A site that needs no work.
use stayturgid.Base.{
  ◌≡◌, refl, sym, ap, ◌∙◌, Bool, true, false, ◌&&◌, not, some, List, [], ◌∷◌, ◌++◌, arith, All,
  All-append, All-imp, Text, text_eq_refl, member, Dict, get, sorted_set, sorted_set-All,
}
use stayturgid.SiteSync.Site.{file, Tree, gives, under_generated}
use stayturgid.SiteSync.Manifest.{Entry, paths_of}
use stayturgid.SiteSync.Lock.{LockDoc, load_lockfile, lockfile_hashes, hash_map}
use stayturgid.SiteSync.Lock.Hashes.{is_given, paths, get-hash_map}
use stayturgid.SiteSync.Plan.{
  World, Identity, skip, PlannedFile, Plan, rendered, plan_node, plan_content, plan_entries,
  plan_deletes, keys_of, is_skip, has_content_work, is_within, is_current, finish_plan, build_plan,
  has_drift,
}
use stayturgid.SiteSync.Plan.Items.{files-finish_plan}
use stayturgid.SiteSync.Plan.Within.{is_within-is_given}

-- Every file of the manifest is there as its template renders, and `hashes` has its digest.
abbrev pub Settled : World → Tree → List Entry → List (Text × Text) → Type 0
Settled w t [] hashes = hashes ≡ []
Settled w t (e ∷ es) hashes =
    (content : Text) × (rest : List (Text × Text)) × (rendered w e ≡ gives content)
    × (under_generated e.path ≡ true)
    × (get e.path t ≡ some (file content))
    × (hashes ≡ (e.path, w.sha content) ∷ rest)
    × Settled w t es rest

-- The files are there, and the lockfile is that of this product, its version and commit and these
-- files, no more and no less.
pub record IsSynced (w : World) (id : Identity) (manifest : List Entry) (t : Tree) : Type 0 where
  pub doc : LockDoc
  pub known : Dict Text
  pub hashes : List (Text × Text)
  pub settled : Settled w t manifest hashes
  pub locking : load_lockfile w.load t ≡ gives (some doc)
  pub hashing : lockfile_hashes (some doc) ≡ gives known
  pub current : is_current id known (hash_map hashes []) doc ≡ true

-- The row of a file that is as it should be.
abbrev pub same_row : Text → Text → PlannedFile
same_row p content = record { path = p; content = some content; action = skip; drift = false }

-- A row that skips, with no drift.
abbrev pub IsIdle : PlannedFile → Type 0
IsIdle f = ((is_skip f.action && not f.drift) && under_generated f.path) ≡ true

plan_content-same :
    (w : World) (force : Bool) (known : Dict Text) (t : Tree) (e : Entry) (content : Text)
    → under_generated e.path ≡ true
    → get e.path t ≡ some (file content)
    → plan_content w force known t e content ≡ gives (same_row e.path content)
unfolding plan_content plan_node
plan_content-same w force known t e content under there =
    rw (under, there, text_eq_refl content) refl

plan_entries-IsIdle :
    (w : World) (force : Bool) (known : Dict Text) (t : Tree) (es : List Entry)
    (hashes : List (Text × Text))
    → Settled w t es hashes
    → (rows : List PlannedFile) × (plan_entries w force known t es ≡ gives (rows, hashes))
      × All IsIdle rows
unfolding plan_entries
plan_entries-IsIdle w force known t [] hashes h = ([], rw h refl, tt)
plan_entries-IsIdle w force known t (e ∷ es) hashes h =
    let (content, rest, rendering, under, there, split, others) = h in
    let (rows, planned, idle) = plan_entries-IsIdle w force known t es rest others in
    let same = plan_content-same w force known t e content under there in
    (
      same_row e.path content ∷ rows,
      rw (plan_entries, rendering, same, planned, split) refl,
      (rw under refl, idle),
    )

-- Nothing is deleted if every locked path is in the manifest.
pub plan_deletes-listed :
    (w : World) (force : Bool) (known : Dict Text) (t : Tree) (manifest ps : List Text)
    → All (λ p. member p manifest ≡ true) ps
    → plan_deletes w force known t manifest ps ≡ gives []
unfolding plan_deletes
plan_deletes-listed w force known t manifest [] h = refl
plan_deletes-listed w force known t manifest (p ∷ ps) h =
    rw (plan_deletes, h.0) (plan_deletes-listed w force known t manifest ps h.1)

pub paths-Settled :
    (w : World) (t : Tree) (es : List Entry) (hashes : List (Text × Text))
    → Settled w t es hashes
    → paths hashes ≡ paths_of es
paths-Settled w t [] hashes h = rw h refl
paths-Settled w t (e ∷ es) hashes h =
    let (content, rest, rendering, under, there, split, others) = h in
    rw split (ap (◌∷◌ e.path) (paths-Settled w t es rest others))

-- A lockfile that says no more than the manifest locks the paths of the manifest only.
pub keys-member :
    (files : List (Text × Text)) (known : Dict Text) (ps : List Text)
    → paths files ≡ ps
    → is_within known (hash_map files []) ≡ true
    → All (λ p. member p ps ≡ true) (sorted_set (keys_of known))
unfolding get
keys-member files known ps same h =
    sorted_set-All (λ p. member p ps ≡ true) (keys_of known)
      (All-imp (λ p. is_given (get p (hash_map files [])) ≡ true) (λ p. member p ps ≡ true)
        (keys_of known) (λ p k. rw (sym same) (ground (arith, get-hash_map p files [] k)))
        (is_within-is_given known (hash_map files []) h))

-- No row of it does anything, and the lockfile is not written.
pub record IsResting (plan : Plan) : Type 0 where
  pub idle : All IsIdle plan.files
  pub lock_kept : plan.lock_action ≡ skip

idle-has_content_work : (rows : List PlannedFile) → All IsIdle rows → has_content_work rows ≡ false
unfolding has_content_work
idle-has_content_work [] h = refl
idle-has_content_work (f ∷ fs) h = let g = h.0 in ground (arith, idle-has_content_work fs h.1)

pub idle-has_drift : (rows : List PlannedFile) → All IsIdle rows → has_drift rows ≡ false
unfolding has_drift
idle-has_drift [] h = refl
idle-has_drift (f ∷ fs) h = let g = h.0 in ground (arith, idle-has_drift fs h.1)

-- The same product, version and commit, at another time.
abbrev pub at_time : Identity → Text → Identity
at_time id synced = record { version = id.version; commit = id.commit; synced = synced }

is_current-is_within :
    (id : Identity) (old new : Dict Text) (doc : LockDoc)
    → is_current id old new doc ≡ true
    → is_within old new ≡ true
unfolding is_current
is_current-is_within id old new doc h = ground arith

finish_plan-skip :
    (w : World) (id : Identity) (t : Tree) (doc : LockDoc) (known : Dict Text)
    (rows : List PlannedFile) (hashes : List (Text × Text))
    → has_content_work rows ≡ false
    → is_current id known (hash_map hashes []) doc ≡ true
    → (finish_plan w id t (some doc) known rows hashes).lock_action ≡ skip
unfolding finish_plan
finish_plan-skip w id t doc known rows hashes idle current = rw (idle, current) refl

-- Where the site is as its manifest, templates, product, version and commit say, a later plan has
-- nothing to do: it can be made, none of its files is created, overwritten, deleted or drifted, and
-- the lockfile is not written again, in spite of the later time.
pub IsSynced-build_plan :
    (w : World) (id : Identity) (force : Bool) (synced : Text) (manifest : List Entry) (t : Tree)
    → IsSynced w id manifest t
    → (plan : Plan) × (build_plan w (at_time id synced) force manifest t ≡ gives plan)
      × IsResting plan
unfolding build_plan is_current
IsSynced-build_plan w id force synced manifest t s =
    let (rows, planned, idle) = plan_entries-IsIdle w force s.known t manifest s.hashes s.settled in
    let deletes =
      plan_deletes-listed w force s.known t (paths_of manifest) (sorted_set (keys_of s.known)) (
        keys-member s.hashes s.known (paths_of manifest)
          (paths-Settled w t manifest s.hashes s.settled)
          (is_current-is_within id s.known (hash_map s.hashes []) s.doc s.current)) in
    let all_idle = All-append IsIdle rows [] idle tt in
    let plan = finish_plan w (at_time id synced) t (some s.doc) s.known (rows ++ []) s.hashes in
    (
      plan,
      rw (build_plan, s.locking, s.hashing, planned, deletes) refl,
      record {
        idle =
            rw
              (files-finish_plan w (at_time id synced) t (some s.doc) s.known (rows ++ []) s.hashes)
              all_idle;
        lock_kept =
            finish_plan-skip w (at_time id synced) t s.doc s.known (rows ++ []) s.hashes
              (idle-has_content_work (rows ++ []) all_idle) s.current;
      },
    )

pub Settled-same :
    (w : World) (t t' : Tree) (es : List Entry) (hashes : List (Text × Text))
    → All (λ p. get p t' ≡ get p t) (paths_of es)
    → Settled w t es hashes
    → Settled w t' es hashes
Settled-same w t t' [] hashes same h = h
Settled-same w t t' (e ∷ es) hashes same h =
    let (content, rest, rendering, under, there, split, others) = h in
    (
      content,
      rest,
      rendering,
      under,
      same.0 ∙ there,
      split,
      Settled-same w t t' es rest same.1 others,
    )
