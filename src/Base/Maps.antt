-- ===== src/Base/Maps.antt =====
-- A Python `dict` with text keys, as a list of its entries. The program does not depend on their order.
use mathlib.Core.Path.{◌≡◌, refl}
use mathlib.Core.Option.{Option, none, some}
use mathlib.Core.List.{List, [], ◌∷◌}
use native.Mathlib.Omega.{arith}
use stayturgid.Base.Tests.{if◌then◌else◌}
use stayturgid.Base.Texts.{Text, text_eq, text_eq_iff}

abbrev pub Dict {ℓ} : Type ℓ → Type ℓ
Dict V = List (Text × V)

module _ {ℓ} {V : Type ℓ} where
  -- d.get(k)
  unfoldable pub get : Text → Dict V → Option V
  get k [] = none
  get k ((j, v) ∷ d) = if text_eq j k then some v else get k d

  -- d[k] = v
  unfoldable pub assign : Text → V → Dict V → Dict V
  assign k v [] = (k, v) ∷ []
  assign k v ((j, w) ∷ d) = if text_eq j k then (k, v) ∷ d else (j, w) ∷ assign k v d

  -- d.pop(k, None)
  unfoldable pub discard : Text → Dict V → Dict V
  discard k [] = []
  discard k ((j, w) ∷ d) = let rest = discard k d in if text_eq j k then rest else (j, w) ∷ rest

  -- d.get(k, v)
  abbrev pub get_or : Text → V → Dict V → V
  get_or k v d = elim (get k d) [ none ↦ v | some w ↦ w ]

  pub get-assign :
      (k j : Text) (v : V) (d : Dict V)
      → get j (assign k v d) ≡ (if text_eq k j then some v else get j d)
  unfolding get assign
  get-assign k j v [] = refl
  get-assign k j v ((i, w) ∷ d) =
      ground (arith, text_eq_iff i k, text_eq_iff i j, text_eq_iff k j, get-assign k j v d)

  pub get-discard :
      (k j : Text) (d : Dict V) → get j (discard k d) ≡ (if text_eq k j then none else get j d)
  unfolding get discard
  get-discard k j [] = ground arith
  get-discard k j ((i, w) ∷ d) =
      ground (arith, text_eq_iff i k, text_eq_iff i j, text_eq_iff k j, get-discard k j d)
