-- ===== src/SiteSync/Manifest/Paths.antt =====
-- What a manifest that loads promises of its paths.
use stayturgid.Base.{
  ◌≡◌, refl, ap, ◌∙◌, map, is_space, strip_chars-map, strip_chars-strip_chars, Bool, true, false,
  ◌||◌, not, Option, none, some, List, [], ◌∷◌, arith, All, All-imp, Text, text_eq, text_eq_iff,
  member, strip, is_empty, codes, inl, inr,
}
use stayturgid.SiteSync.Site.{
  Error, Outcome-cases, Outcome, gives, ◌>>◌, refuse_if, refuse_if-gives, generated_prefix,
  lockfile_relative, starts_with, ends_with, climbs, bad_manifest,
}
use stayturgid.SiteSync.Manifest.{
  slash, Entry, paths_of, RawItem, ManifestDoc, normal, given, check_path, load_item, load_items,
  load_files, load_manifest, is_one, is_product,
}

-- A relative path within the generated directory, not a lockfile's, without blanks around it.
pub record Fits (p : Text) : Type 0 where
  pub inside : starts_with generated_prefix p ≡ true
  pub stays : climbs p ≡ false
  pub not_lock : text_eq p lockfile_relative ≡ false
  pub stripped : strip p ≡ p
  pub given : is_empty p ≡ false

abbrev pub IsDistinct : List Text → Type 0
IsDistinct [] = Unit
IsDistinct (p ∷ ps) = All (λ q. text_eq p q ≡ false) ps × IsDistinct ps

strip-normal : (s : Text) → strip (normal s) ≡ normal s
strip-normal s =
    strip_chars-map is_space slash (λ c. ground arith) (strip s)
    ∙ ap (map slash) (strip_chars-strip_chars is_space s)

starts_with-is_empty : (p : Text) → starts_with generated_prefix p ≡ true → is_empty p ≡ false
starts_with-is_empty [] h = cc
starts_with-is_empty (c ∷ p) h = refl

refused :
    {A : Type 0} (test : Bool) (e : Error) (k : Outcome A) {u : A}
    → (refuse_if test e >> k) ≡ gives u
    → (test ≡ false) × (k ≡ gives u)
refused true e k h = cc
refused false e k h = (refl, h)

-- The tests that a path has passed.
record Checked (p : Text) (seen : List Text) : Type 0 where
  fits : strip p ≡ p → Fits p
  new : member p seen ≡ false

check_path-Checked :
    (p template : Text) (seen : List Text) {u : Unit {0}}
    → check_path p template seen ≡ gives u
    → Checked p seen
unfolding check_path
check_path-Checked p template seen {u} h =
    let new = refuse_if (member p seen) bad_manifest in
    let own =
      refuse_if (text_eq p lockfile_relative || ends_with (codes "/.lockfile.yml") p)
        bad_manifest in
    let inside = refuse_if (not (starts_with generated_prefix p)) bad_manifest in
    let stays = refuse_if (climbs p || climbs template) bad_manifest in
    let (a, h1) =
      refused (starts_with (codes "/") p) bad_manifest (stays >> (inside >> (own >> new))) h in
    let (b, h2) = refused (climbs p || climbs template) bad_manifest (inside >> (own >> new)) h1 in
    let (c, h3) = refused (not (starts_with generated_prefix p)) bad_manifest (own >> new) h2 in
    let (d, h4) =
      refused (text_eq p lockfile_relative || ends_with (codes "/.lockfile.yml") p) bad_manifest new
        h3 in
    let prefixed : starts_with generated_prefix p ≡ true = ground arith in
    record {
      fits = λ s. record {
        inside = prefixed;
        stays = ground arith;
        not_lock = ground arith;
        stripped = s;
        given = starts_with-is_empty p prefixed;
      };
      new = refuse_if-gives (member p seen) bad_manifest h4;
    }

load_item-Checked :
    (item : RawItem) (seen : List Text) {e : Entry}
    → load_item item seen ≡ gives e
    → Fits e.path × (member e.path seen ≡ false)
unfolding load_item
load_item-Checked none seen h = cc
load_item-Checked (some (path, template)) seen {e} h = elim (Outcome-cases (given path)) [
  | inr (x, bad) ↦ cc (rw (load_item, bad) at h)
  | inl (p, fine) ↦ elim (Outcome-cases (given template)) [
    | inr (x, bad) ↦ cc (rw (load_item, fine, bad) at h)
    | inl (t, done) ↦ elim (Outcome-cases (check_path (normal p) (normal t) seen)) [
      | inr (x, bad) ↦ cc (rw (load_item, fine, done, bad) at h)
      | inl (u, passed) ↦
          let c = check_path-Checked (normal p) (normal t) seen passed in
          let k : gives (record { path = normal p; template = normal t }) ≡ gives e =
            rw (load_item, fine, done, passed) at h in
          let same : e.path ≡ normal p = cc in rw same (c.fits (strip-normal p), c.new)
    ]
  ]
]

-- The paths of a manifest are fit and distinct.
pub record IsOrderly (es : List Entry) : Type 0 where
  pub fit : All Fits (paths_of es)
  pub distinct : IsDistinct (paths_of es)

load_items-IsOrderly :
    (items : List RawItem) (seen : List Text) {es : List Entry}
    → load_items items seen ≡ gives es
    → All (λ p. Fits p × (member p seen ≡ false)) (paths_of es) × IsDistinct (paths_of es)
unfolding load_items
load_items-IsOrderly [] seen {es} h = let e : es ≡ [] = cc in rw e (tt, tt)
load_items-IsOrderly (item ∷ items) seen {es} h = elim (Outcome-cases (load_item item seen)) [
  | inr (x, bad) ↦ cc (rw (load_items, bad) at h)
  | inl (e, fine) ↦ elim (Outcome-cases (load_items items (e.path ∷ seen))) [
    | inr (x, bad) ↦ cc (rw (load_items, fine, bad) at h)
    | inl (rest, more) ↦
        let k : gives (e ∷ rest) ≡ gives es = rw (load_items, fine, more) at h in
        let same : es ≡ e ∷ rest = cc in
        let (each, distinct) = load_items-IsOrderly items (e.path ∷ seen) more in
        rw same (
          (
            load_item-Checked item seen fine,
            All-imp (λ p. Fits p × (member p (e.path ∷ seen) ≡ false))
                (λ p. Fits p × (member p seen ≡ false)) (paths_of rest)
                (λ p f. (f.0, ground (arith, f.1))) each,
          ),
          (
            All-imp (λ p. Fits p × (member p (e.path ∷ seen) ≡ false))
                (λ p. text_eq e.path p ≡ false) (paths_of rest) (λ p f. ground (arith, f.1)) each,
            distinct,
          ),
        )
  ]
]

load_files-IsOrderly :
    (files : Option (List RawItem)) {es : List Entry} → load_files files ≡ gives es → IsOrderly es
unfolding load_files
load_files-IsOrderly none h = cc
load_files-IsOrderly (some []) h = cc
load_files-IsOrderly (some (item ∷ items)) {es} h =
    let (each, distinct) = load_items-IsOrderly (item ∷ items) [] h in
    record {
      fit = All-imp (λ p. Fits p × (member p [] ≡ false)) Fits (paths_of es) (λ p f. f.0) each;
      distinct = distinct;
    }

-- The paths of a manifest that loads lie in the generated directory, climb nowhere, are not the
-- lockfile's, have no blanks around them, and are distinct.
pub load_manifest-IsOrderly :
    (doc : Option ManifestDoc) {es : List Entry} → load_manifest doc ≡ gives es → IsOrderly es
unfolding load_manifest load_files
load_manifest-IsOrderly none h = cc
load_manifest-IsOrderly (some doc) {es} h =
    let product = refuse_if (not (is_product doc.product_name)) bad_manifest in
    let (a, h1) =
      refused (not (is_one doc.contract_version)) bad_manifest (product >> load_files doc.files)
        h in
    let (b, h2) =
      refused (not (is_product doc.product_name)) bad_manifest (load_files doc.files) h1 in
    load_files-IsOrderly doc.files h2

pub Fits-apart : (p : Text) → Fits p → text_eq lockfile_relative p ≡ false
Fits-apart p fits =
    let apart = fits.not_lock in
    ground (arith, text_eq_iff p lockfile_relative, text_eq_iff lockfile_relative p)
