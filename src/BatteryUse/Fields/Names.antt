-- ===== src/BatteryUse/Fields/Names.antt =====
-- Wakelock and job names with commas in them.
use stayturgid.Base.{
  ℕ, ◌+◌, ◌≤◌, ◌≡◌, refl, sym, ap, ◌∙◌, inl, inr, some, List, [], ◌∷◌, ◌++◌, reverse, arith, Text,
  codes, length, length-append, ◌==◌, le→ltb, Bool-cases, ==_iff, All, ℤ, int_of,
}
use mathlib.Core.List.{reverse-append, reverse-reverse}
use stayturgid.BatteryUse.Fields.{split_commas, join_commas, Wakelock, parse_wl}

split_commas-cons : (s : Text) → (w : Text) × (ws : List Text) × (split_commas s ≡ w ∷ ws)
unfolding split_commas
split_commas-cons [] = ([], [], refl)
split_commas-cons (c ∷ s) =
    let (w, ws, e) = split_commas-cons s in
    elim (Bool-cases (c == b',')) [
      | inl comma ↦ ([], w ∷ ws, rw (split_commas, e, comma))
      | inr other ↦ (c ∷ w, ws, rw (split_commas, e, other))
    ]

join_commas-cons :
    (c : ℕ) (w : Text) (ws : List Text) → join_commas ((c ∷ w) ∷ ws) ≡ c ∷ join_commas (w ∷ ws)
unfolding join_commas
join_commas-cons c w [] = refl
join_commas-cons c w (v ∷ ws) = refl

-- The joined fields of a text are the text.
join_commas-split_commas : (s : Text) → join_commas (split_commas s) ≡ s
unfolding join_commas split_commas
join_commas-split_commas [] = refl
join_commas-split_commas (c ∷ s) =
    let (w, ws, e) = split_commas-cons s in
    let whole = sym (ap join_commas e) ∙ join_commas-split_commas s in
    elim (Bool-cases (c == b',')) [
      | inl comma ↦
          rw (e, comma) (ap (◌∷◌ b',') whole ∙ ap (λ d. d ∷ s) (sym ((==_iff c b',').0 comma)))
      | inr other ↦ rw (e, other) (join_commas-cons c w ws ∙ ap (◌∷◌ c) whole)
    ]

-- A comma separates the fields before it from those after it.
split_commas-append : (s t : Text) → split_commas (s ++ b',' ∷ t) ≡ split_commas s ++ split_commas t
unfolding split_commas
split_commas-append [] t = let (w, ws, e) = split_commas-cons t in rw e refl
split_commas-append (c ∷ s) t =
    let (w, ws, e) = split_commas-cons s in
    let both = split_commas-append s t ∙ ap (λ f. f ++ split_commas t) e in
    elim (Bool-cases (c == b',')) [
      | inl comma ↦ rw (both, e, comma) refl
      | inr other ↦ rw (both, e, other) refl
    ]

-- A text without a comma.
abbrev pub IsField : Text → Type 0
IsField t = split_commas t ≡ t ∷ []

-- A text without a comma that reads as the number.
abbrev pub IsNumeral : Text → ℤ → Type 0
IsNumeral t n = IsField t × (int_of t ≡ some n)

split_commas-join_commas :
    (w : Text) (ws : List Text)
    → All IsField (w ∷ ws)
    → split_commas (join_commas (w ∷ ws)) ≡ w ∷ ws
unfolding join_commas
split_commas-join_commas w [] h = h.0
split_commas-join_commas w (v ∷ ws) h =
    split_commas-append w (join_commas (v ∷ ws))
    ∙ ap (λ f. f ++ split_commas (join_commas (v ∷ ws))) h.0
    ∙ ap (◌∷◌ w) (split_commas-join_commas v ws h.1)

-- The text of a name and of the fields after it.
abbrev pub named : Text → List Text → Text
named name tail = name ++ b',' ∷ join_commas tail

reverse_fields :
    (name w : Text) (ws : List Text)
    → All IsField (w ∷ ws)
    → reverse (split_commas (named name (w ∷ ws))) ≡ reverse (w ∷ ws) ++ reverse (split_commas name)
reverse_fields name w ws h =
    ap reverse (
      split_commas-append name (join_commas (w ∷ ws))
      ∙ ap (λ f. split_commas name ++ f) (split_commas-join_commas w ws h))
    ∙ reverse-append (split_commas name) (w ∷ ws)

split_commas-ne_nil : (s : Text) → 1 ≤ length (split_commas s)
split_commas-ne_nil s = let (w, ws, e) = split_commas-cons s in rw e (omega arith)

field_count :
    (name w : Text) (ws : List Text)
    → All IsField (w ∷ ws)
    → length (split_commas (named name (w ∷ ws))) ≡ length (split_commas name) + length (w ∷ ws)
field_count name w ws h =
    ap length (
      split_commas-append name (join_commas (w ∷ ws))
      ∙ ap (λ f. split_commas name ++ f) (split_commas-join_commas w ws h))
    ∙ length-append (split_commas name) (w ∷ ws)

-- The tail fields of a wakelock's line.
abbrev pub wl_tail : Text → Text → Text → Text → Text → Text → List Text
wl_tail full_ms full_n partial_ms partial_n window_ms window_n =
    full_ms
    ∷ codes "f"
    ∷ full_n
    ∷ partial_ms
    ∷ codes "p"
    ∷ partial_n
    ∷ window_ms
    ∷ codes "w"
    ∷ window_n
    ∷ []

-- The fields of a wakelock's line read back as its name and its six numbers, whatever commas the name
-- has.
pub parse_wl-named :
    (name fm fn pm pn wm wn : Text) (w : Wakelock)
    → w.name ≡ name
    → IsNumeral fm w.full_ms
    → IsNumeral fn w.full_n
    → IsNumeral pm w.partial_ms
    → IsNumeral pn w.partial_n
    → IsNumeral wm w.window_ms
    → IsNumeral wn w.window_n
    → parse_wl (split_commas (named name (wl_tail fm fn pm pn wm wn))) ≡ some w
unfolding split_commas parse_wl
parse_wl-named name fm fn pm pn wm wn w same a b c d e f =
    let h : All IsField (wl_tail fm fn pm pn wm wn) =
      (a.0, (refl, (b.0, (c.0, (refl, (d.0, (e.0, (refl, (f.0, tt))))))))) in
    let tail = codes "f" ∷ fn ∷ pm ∷ codes "p" ∷ pn ∷ wm ∷ codes "w" ∷ wn ∷ [] in
    let enough =
      le→ltb (length (split_commas (named name (fm ∷ tail)))) 10
        (omega (arith, field_count name fm tail h, split_commas-ne_nil name)) in
    rw
      (
        enough,
        reverse_fields name fm tail h,
        a.1,
        b.1,
        c.1,
        d.1,
        e.1,
        f.1,
        reverse-reverse (split_commas name),
        join_commas-split_commas name,
        sym same,
      )
      refl
