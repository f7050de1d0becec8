-- ===== src/BatteryUse/Rows/Once.antt =====
-- That `_tracked_mah` counts a user id once.
use stayturgid.Base.{
  ◌≡◌, refl, sym, ap, ◌∙◌, inl, inr, Bool, true, false, Option, none, some, List, [], ◌∷◌, ◌++◌,
  arith, Bool-cases, Option-cases, In, here, there, ℤ, pos, eqℤ_iff,
}
use stayturgid.BatteryUse.Tables.{Floats}
use stayturgid.BatteryUse.Rows.{Row, mah_of, uid_of, is_seen, note_uid, add_rows, tracked_mah}

module _ {F : Type 0} (fl : Floats F) where
  is_seen-note_uid :
      (u v : Option ℤ) (seen : List ℤ)
      → is_seen fl u seen ≡ true
      → is_seen fl u (note_uid fl v seen) ≡ true
  is_seen-note_uid none v seen h = cc
  is_seen-note_uid (some u) none seen h = h
  is_seen-note_uid (some u) (some v) seen h = ground arith

  is_seen_noted : (u : ℤ) (seen : List ℤ) → is_seen fl (some u) (note_uid fl (some u) seen) ≡ true
  is_seen_noted u seen = ground (arith, eqℤ_iff u u)

  add_rows-seen :
      (xs ys : List (Row F)) (r : Row F) (seen : List ℤ) (total : F) (found : Bool)
      → is_seen fl (uid_of r) seen ≡ true
      → add_rows fl (xs ++ r ∷ ys) seen total found ≡ add_rows fl (xs ++ ys) seen total found
  unfolding add_rows
  add_rows-seen [] ys r seen total found h = elim (Option-cases (mah_of r)) [
    | inl e ↦ rw (add_rows, e) refl
    | inr (x, e) ↦ rw (add_rows, e, h) refl
  ]
  add_rows-seen (q ∷ xs) ys r seen total found h = elim (Option-cases (mah_of q)) [
    | inl e ↦ rw (add_rows, e) (add_rows-seen xs ys r seen total found h)
    | inr (x, e) ↦ elim (Bool-cases (is_seen fl (uid_of q) seen)) [
      | inl old ↦ rw (add_rows, e, old) (add_rows-seen xs ys r seen total found h)
      | inr new ↦
          rw (add_rows, e, new)
            (add_rows-seen xs ys r (note_uid fl (uid_of q) seen) (fl.plus total x) true
              (is_seen-note_uid (uid_of r) (uid_of q) seen h))
    ]
  ]

  add_rows-shared :
      (xs ys : List (Row F)) (q r : Row F) (u : ℤ) (x : F) (seen : List ℤ) (total : F)
      (found : Bool)
      → In q xs
      → mah_of q ≡ some x
      → uid_of q ≡ some u
      → uid_of r ≡ some u
      → add_rows fl (xs ++ r ∷ ys) seen total found ≡ add_rows fl (xs ++ ys) seen total found
  unfolding add_rows
  add_rows-shared [] ys q r u x seen total found i e f g = elim i [ ]
  add_rows-shared (p ∷ xs) ys q r u x seen total found here e f g =
      elim (Bool-cases (is_seen fl (uid_of q) seen)) [
        | inl old ↦
            rw (add_rows, e, old)
              (add_rows-seen xs ys r seen total found
                (ap (λ v. is_seen fl v seen) (g ∙ sym f) ∙ old))
        | inr new ↦
            rw (add_rows, e, new)
              (add_rows-seen xs ys r (note_uid fl (uid_of q) seen) (fl.plus total x) true
                (rw (f, g) (is_seen_noted u seen)))
      ]
  add_rows-shared (p ∷ xs) ys q r u x seen total found (there i) e f g =
      elim (Option-cases (mah_of p)) [
        | inl d ↦ rw (add_rows, d) (add_rows-shared xs ys q r u x seen total found i e f g)
        | inr (y, d) ↦ elim (Bool-cases (is_seen fl (uid_of p) seen)) [
          | inl old ↦ rw (add_rows, d, old) (add_rows-shared xs ys q r u x seen total found i e f g)
          | inr new ↦
              rw (add_rows, d, new)
                (add_rows-shared xs ys q r u x (note_uid fl (uid_of p) seen) (fl.plus total y) true
                  i e f g)
        ]
      ]

  -- A later row of a user id whose drain is counted adds nothing to the total: packages that share a
  -- user id are counted once.
  pub tracked_mah-shared :
      (xs ys : List (Row F)) (q r : Row F) (u : ℤ) (x : F)
      → In q xs
      → mah_of q ≡ some x
      → uid_of q ≡ some u
      → uid_of r ≡ some u
      → tracked_mah fl (xs ++ r ∷ ys) ≡ tracked_mah fl (xs ++ ys)
  unfolding tracked_mah
  tracked_mah-shared xs ys q r u x = add_rows-shared xs ys q r u x [] (fl.of_int (pos 0)) false
