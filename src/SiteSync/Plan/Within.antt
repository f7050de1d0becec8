-- ===== src/SiteSync/Plan/Within.antt =====
-- One dict of hashes within another.
use stayturgid.Base.{
  ◌≡◌, refl, sym, true, false, List, [], ◌∷◌, arith, All, All-imp, Text, text_eq, text_eq_iff,
  text_eq_refl, Dict, get, assign, Bool-cases, inl, inr,
}
use stayturgid.SiteSync.Lock.{hash_map}
use stayturgid.SiteSync.Lock.Hashes.{is_given}
use stayturgid.SiteSync.Manifest.Paths.{IsDistinct}
use stayturgid.SiteSync.Plan.{keys_of, same_text, is_within}

keys-assign-All :
    (Q : Text → Type 0) (k v : Text) (d : Dict Text)
    → Q k
    → All Q (keys_of d)
    → All Q (keys_of (assign k v d))
unfolding assign
keys-assign-All Q k v [] new h = (new, tt)
keys-assign-All Q k v ((j, u) ∷ d) new h = elim (Bool-cases (text_eq j k)) [
  | inl same ↦ rw (assign, same) (new, h.1)
  | inr other ↦ rw (assign, other) (h.0, keys-assign-All Q k v d new h.1)
]

keys-assign-IsDistinct :
    (k v : Text) (d : Dict Text) → IsDistinct (keys_of d) → IsDistinct (keys_of (assign k v d))
unfolding assign
keys-assign-IsDistinct k v [] h = (tt, tt)
keys-assign-IsDistinct k v ((j, u) ∷ d) h = elim (Bool-cases (text_eq j k)) [
  | inl same ↦
      let e : j ≡ k = (text_eq_iff j k).0 same in
      rw (assign, same)
        (
          All-imp (λ q. text_eq j q ≡ false) (λ q. text_eq k q ≡ false) (keys_of d)
              (λ q ne. rw (sym e) ne) h.0,
          h.1,
        )
  | inr other ↦
      rw (assign, other)
        (
          keys-assign-All (λ q. text_eq j q ≡ false) k v d other h.0,
          keys-assign-IsDistinct k v d h.1,
        )
]

hash_map-IsDistinct :
    (files : List (Text × Text)) (out : Dict Text)
    → IsDistinct (keys_of out)
    → IsDistinct (keys_of (hash_map files out))
unfolding hash_map
hash_map-IsDistinct [] out h = h
hash_map-IsDistinct ((p, d) ∷ files) out h =
    hash_map-IsDistinct files (assign p d out) (keys-assign-IsDistinct p d out h)

-- A dict stays within another that gets a key it does not have.
is_within-cons :
    (k v : Text) (c d : Dict Text)
    → All (λ q. text_eq k q ≡ false) (keys_of c)
    → is_within c d ≡ true
    → is_within c ((k, v) ∷ d) ≡ true
unfolding is_within get
is_within-cons k v [] d ne h = refl
is_within-cons k v ((j, u) ∷ c) d ne h =
    let head = ne.0 in ground (arith, is_within-cons k v c d ne.1)

is_within_refl : (d : Dict Text) → IsDistinct (keys_of d) → is_within d d ≡ true
unfolding is_within get
is_within_refl [] h = refl
is_within_refl ((k, v) ∷ d) h =
    rw (is_within, get, text_eq_refl k, same_text, text_eq_refl v)
      (is_within-cons k v d d h.0 (is_within_refl d h.1))

pub is_within-hash_map :
    (files : List (Text × Text)) → is_within (hash_map files []) (hash_map files []) ≡ true
is_within-hash_map files = is_within_refl (hash_map files []) (hash_map-IsDistinct files [] tt)

-- Every key of the first has a value in the second.
pub is_within-is_given :
    (c d : Dict Text) → is_within c d ≡ true → All (λ k. is_given (get k d) ≡ true) (keys_of c)
unfolding is_within
is_within-is_given [] d h = tt
is_within-is_given ((k, v) ∷ c) d h = (ground (arith), is_within-is_given c d (ground arith))
