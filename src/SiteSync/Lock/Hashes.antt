-- ===== src/SiteSync/Lock/Hashes.antt =====
-- The hashes of a lockfile that this program built.
use stayturgid.Base.{
  ◌≡◌, refl, Bool, true, false, ◌||◌, Option, none, some, List, [], ◌∷◌, arith, All, Text, is_empty,
  member, strip, lower, Dict, get, assign, get-assign,
}
use stayturgid.SiteSync.Site.{gives}
use stayturgid.SiteSync.Lock.{
  locked, hashes_of, lockfile_hashes, lock_items, build_lockfile_document, hash_map,
}

-- What `hexdigest` returns: no blanks around it, no capitals, not empty.
pub record IsDigest (d : Text) : Type 0 where
  pub stripped : strip d ≡ d
  pub lowered : lower d ≡ d
  pub given : is_empty d ≡ false

-- A path without blanks around it, and a digest.
pub record IsClean (file : Text × Text) : Type 0 where
  pub path_stripped : strip (file.0) ≡ file.0
  pub path_given : is_empty (file.0) ≡ false
  pub digest : IsDigest (file.1)

locked-stripped : (s : Text) → strip s ≡ s → is_empty s ≡ false → locked (some s) ≡ gives s
locked-stripped s h g = rw (h, g)

hashes_of-lock_items :
    (files : List (Text × Text)) (out : Dict Text)
    → All IsClean files
    → hashes_of (lock_items files) out ≡ gives (hash_map files out)
unfolding hashes_of hash_map
hashes_of-lock_items [] out h = refl
hashes_of-lock_items ((p, d) ∷ files) out h =
    let (c, cs) = h in
    rw
      (
        hashes_of,
        locked-stripped p c.path_stripped c.path_given,
        locked-stripped d c.digest.stripped c.digest.given,
        c.digest.lowered,
      )
      (hashes_of-lock_items files (assign p d out) cs)

-- A lockfile built from paths without blanks around them and from digests is read back as these
-- hashes, a later entry of a path before an earlier one.
pub lockfile_hashes-build :
    (version commit synced : Text) (files : List (Text × Text))
    → All IsClean files
    → lockfile_hashes (some (build_lockfile_document version commit synced files))
      ≡ gives (hash_map files [])
unfolding lockfile_hashes build_lockfile_document
lockfile_hashes-build version commit synced files h = hashes_of-lock_items files [] h

abbrev pub paths : List (Text × Text) → List Text
paths [] = []
paths ((p, d) ∷ files) = p ∷ paths files

abbrev pub is_given : Option Text → Bool
is_given none = false
is_given (some t) = true

-- A path that has a hash is listed, or had one before.
pub get-hash_map :
    (p : Text) (files : List (Text × Text)) (out : Dict Text)
    → is_given (get p (hash_map files out)) ≡ true
    → (member p (paths files) || is_given (get p out)) ≡ true
unfolding hash_map
get-hash_map p [] out h = h
get-hash_map p ((q, d) ∷ files) out h =
    ground (arith, get-hash_map p files (assign q d out) h, get-assign q p d out)
