-- ===== src/SiteSync/Site.antt =====
-- The site directory, the errors and what the sync takes from elsewhere
-- (control/site_contract/site_sync.py). There are no symbolic links in the generated directory,
-- and a path stands for the file only as it is spelled.
use stayturgid.Base.{
  ◌≡◌, refl, ◌⊎◌, inl, inr, ℕ, Bool, true, false, ◌||◌, ◌&&◌, Option, none, some, List, [], ◌∷◌,
  Text, codes, is_empty, text_eq, member, reverse, ◌==◌, if◌then◌else◌, Dict,
}

-- What stands at a path of the site.
pub data Node : Type 0 where
  file : Text → Node
  folder : Node

-- The site directory, by relative path.
abbrev pub Tree : Type 0
Tree = Dict Node

-- The live OliveTin config in the home directory: its content, if it is there.
abbrev pub Live : Type 0
Live = Option Text

-- `SiteSyncError`, by its cause; `not_written` is the `OSError` of the write of the live config.
pub data Error : Type 0 where
  bad_manifest bad_lockfile missing_template open_projection not_rendered not_parsed : Error
  is_folder outside_generated no_content bad_argument foreign_config not_written : Error
  drifted : Error

pub data Outcome {ℓ} (A : Type ℓ) : Type ℓ where
  gives : A → Outcome A
  fails : Error → Outcome A

-- What comes after is done only if nothing was raised.
abbrev pub ◌>>=◌ {κ ℓ} : {B : Type κ} {A : Type ℓ} → Outcome A → (A → Outcome B) → Outcome B
o >>= rest = elim o [ fails e ↦ fails e | gives a ↦ rest a ]

infixl 5 ◌>>=◌ ◌>>◌
abbrev pub ◌>>◌ {κ} : {B : Type κ} → Outcome (Unit {0}) → Outcome B → Outcome B
first >> rest = first >>= λ u. rest

-- `if test: raise`
abbrev pub refuse_if : Bool → Error → Outcome (Unit {0})
refuse_if true e = fails e
refuse_if false e = gives tt

-- `exit_code`
unfoldable pub exit_code : Error → ℕ
exit_code drifted = 2
exit_code foreign_config = 2
exit_code other = 1

abbrev pub product : Text
product = codes "stayturgid"

abbrev pub generated_prefix : Text
generated_prefix = codes "generated/stayturgid/"

abbrev pub lockfile_relative : Text
lockfile_relative = codes "generated/stayturgid/.lockfile.yml"

abbrev pub starts_with : Text → Text → Bool
starts_with [] s = true
starts_with (c ∷ p) [] = false
starts_with (c ∷ p) (d ∷ s) = c == d && starts_with p s

-- `in` on texts
unfoldable pub contains : Text → Text → Bool
contains p [] = is_empty p
contains p (c ∷ s) = let later = contains p s in if starts_with p (c ∷ s) then true else later

unfoldable pub ends_with : Text → Text → Bool
ends_with p [] = is_empty p
ends_with p (c ∷ s) = let later = ends_with p s in if text_eq p (c ∷ s) then true else later

-- The components between the slashes.
unfoldable pub split_slashes : Text → List Text
split_slashes [] = [] ∷ []
split_slashes (c ∷ s) = elim (split_slashes s) [
  | [] ↦ []
  | part ∷ parts ↦ if c == b'/' then [] ∷ part ∷ parts else (c ∷ part) ∷ parts
]

abbrev pub dots : Text
dots = codes ".."

-- `".." in Path(p).parts`
unfoldable pub climbs : Text → Bool
unfolding split_slashes
climbs p = member dots (split_slashes p)

-- The components of `resolve()`, the last one first; `none` is a path that leaves the site.
unfoldable pub resolve_parts : List Text → List Text → Option (List Text)
resolve_parts [] done = some done
resolve_parts (part ∷ parts) done =
    let same = resolve_parts parts done in
    let down = resolve_parts parts (part ∷ done) in
    let up : Option (List Text) = elim done [ [] ↦ none | d ∷ ds ↦ resolve_parts parts ds ] in
    if is_empty part || text_eq part (codes ".")
    then same
    else if text_eq part dots
    then up
    else down

abbrev is_below_generated : List Text → Bool
is_below_generated (p ∷ q ∷ rest) = text_eq p (codes "generated") && text_eq q product
is_below_generated other = false

-- Whether `_assert_under_generated` passes.
unfoldable pub under_generated : Text → Bool
unfolding resolve_parts split_slashes
under_generated p = elim (resolve_parts (split_slashes p) []) [
  | none ↦ false
  | some parts ↦ is_below_generated (reverse parts)
]

-- To split on a computed outcome.
pub Outcome-cases {ℓ} :
    {A : Type ℓ} (o : Outcome A) → ((a : A) × (o ≡ gives a)) ⊎ ((e : Error) × (o ≡ fails e))
Outcome-cases (gives a) = inl (a, refl)
Outcome-cases (fails e) = inr (e, refl)

pub >>=-eq-gives {κ ℓ} :
    {B : Type κ} {A : Type ℓ} {b : B} (o : Outcome A) (rest : A → Outcome B)
    → (o >>= rest) ≡ gives b
    → (a : A) × (rest a ≡ gives b) × (o ≡ gives a)
>>=-eq-gives (fails e) rest h = cc
>>=-eq-gives (gives a) rest h = (a, h, refl)

-- A test that did not raise.
pub refuse_if-gives :
    (test : Bool) (e : Error) {u : Unit {0}} → refuse_if test e ≡ gives u → test ≡ false
refuse_if-gives true e h = cc
refuse_if-gives false e h = refl
