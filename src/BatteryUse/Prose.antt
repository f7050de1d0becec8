-- ===== src/BatteryUse/Prose.antt =====
-- `parse_human` of device/termux/py/stayturgid_battery_use.py: the prose report of a device that prints
-- no checkin. The regular expressions are read on ASCII text. `none` is the ValueError that `float` of a
-- matched number such as `1.2.3` raises and that nothing catches.
use stayturgid.Base.{
  ℕ, Bool, true, false, not, ◌||◌, ◌&&◌, Option, none, some, List, [], ◌∷◌, Text, codes, member,
  is_empty, is_space, strip, strip_left, leb, ◌==◌, if◌then◌else◌, after_prefix, is_digit, Dict,
  assign,
}
use stayturgid.BatteryUse.Fields.{with_some}
use stayturgid.BatteryUse.Tables.{Floats}

-- The longest beginning whose characters pass the test, and the rest.
abbrev pub span : (ℕ → Bool) → Text → Text × Text
span p [] = ([], [])
span p (c ∷ s) = let (l, r) = span p s in if p c then (c ∷ l, r) else ([], c ∷ s)

-- A part that has one character at least.
abbrev pub part : (ℕ → Bool) → Text → Option (Text × Text)
part p s = let (l, r) = span p s in if is_empty l then none else some (l, r)

-- `[0-9.]`
abbrev pub is_amount : ℕ → Bool
is_amount c = is_digit c || c == b'.'

abbrev is_letter : ℕ → Bool
is_letter c = leb b'A' c && leb c b'Z' || leb b'a' c && leb c b'z'

-- `\s*([0-9.]+)` at the beginning.
abbrev pub amount : Text → Option (Text × Text)
amount s = part is_amount (strip_left is_space s)

abbrev no_comma : ℕ → Bool
no_comma c = not (c == b',' || c == 10)

abbrev begins_blank : Text → Bool
begins_blank [] = false
begins_blank (c ∷ s) = is_space c

-- `\s*([^,\n]+)` at the beginning, stripped.
abbrev phrase : Text → Option Text
phrase s = elim (part no_comma (strip_left is_space s)) [
  | some (l, r) ↦ some (strip l)
  | none ↦ if begins_blank s then some [] else none
]

abbrev first_of : Option (Text × Text) → Option Text
first_of none = none
first_of (some (l, r)) = some l

-- The first place where the label stands and what follows it can be read.
unfoldable pub search_after : Text → (Text → Option Text) → Text → Option Text
search_after label f [] = none
search_after label f (c ∷ s) = elim (with_some (after_prefix label (c ∷ s)) f) [
  | some t ↦ some t
  | none ↦ search_after label f s
]

abbrev find_amount : Text → Text → Option Text
find_amount label = search_after label (λ s. first_of (amount s))

-- The rest of a `Uid` line after its number: nothing, or a package in parentheses.
abbrev uid_rest : Text → Option (Option Text)
uid_rest s =
    if is_empty (strip_left is_space s)
    then some none
    else if not (begins_blank s)
    then none
    else with_some (after_prefix (codes "(") (strip_left is_space s)) (λ t.
      with_some (part (λ c. not (c == b')')) t) (λ u.
        with_some (after_prefix (codes ")") u.1)
          (λ v. if is_empty (strip_left is_space v) then some (some u.0) else none)))

-- `_UID_LINE`: the number and the package.
unfoldable pub uid_line : Text → Option (Text × Option Text)
uid_line s = with_some (after_prefix (codes "Uid u") s) (λ a. with_some (part is_digit a) (λ b.
    with_some (after_prefix (codes "a") b.1) (λ c. with_some (part is_digit c) (λ d.
      with_some (after_prefix (codes ":") d.1)
        (λ e. with_some (amount e) (λ f. with_some (uid_rest f.1) (λ pkg. some (f.0, pkg))))))))

abbrev begins_letter : Text → Bool
begins_letter [] = false
begins_letter (c ∷ s) = is_letter c

-- `_NAMED_POWER`: the name and the number.
unfoldable pub named_power : Text → Option (Text × Text)
named_power s =
    if not (begins_letter s)
    then none
    else with_some (part (λ c. is_letter c || c == b' ') s) (λ a.
      with_some (after_prefix (codes ":") a.1) (λ b.
        with_some (amount b)
          (λ c. if is_empty (strip_left is_space c.1) then some (a.0, c.0) else none)))

pub record Prose (F : Type 0) : Type 0 where
  pub in_power : Bool
  pub device_power : Dict F
  pub pkg_mah : Dict F
  pub capacity : Option F
  pub computed : Option F
  pub actual : Option Text

module _ {F : Type 0} (fl : Floats F) where
  abbrev no_prose : Prose F
  no_prose = record {
    in_power = false;
    device_power = [];
    pkg_mah = [];
    capacity = none;
    computed = none;
    actual = none;
  }

  -- The line with the capacity may have both drains too.
  unfoldable pub capacity_line : Text → Text → Prose F → Option (Prose F)
  capacity_line cap line p = with_some (fl.read cap) (λ c.
      with_some
        (elim (find_amount (codes "Computed drain:") line) as (λ _. Option (Option F)) [
          | none ↦ some p.computed
          | some t ↦ with_some (fl.read t) (λ x. some (some x))
        ])
        (λ computed. some (record p {
          capacity = some c;
          computed = computed;
          actual = elim (search_after (codes "actual drain:") phrase line) [
            | none ↦ p.actual
            | some t ↦ some t
          ];
        })))

  unfoldable pub power_line : Text → Prose F → Option (Prose F)
  power_line line p = elim (find_amount (codes "Capacity:") line) [
    | some cap ↦ capacity_line cap line p
    | none ↦ elim (uid_line line) [
      | some (num, none) ↦ some p
      | some (num, some pkg) ↦
          with_some (fl.read num) (λ x. some (record p { pkg_mah = assign pkg x p.pkg_mah }))
      | none ↦ elim (named_power line) [
        | none ↦ some p
        | some (name, num) ↦
            if member name (codes "Capacity" ∷ codes "Uid" ∷ [])
            then some p
            else with_some (fl.read num)
                (λ x. some (record p { device_power = assign name x p.device_power }))
      ]
    ]
  ]

  unfoldable pub prose_line : Text → Prose F → Option (Prose F)
  prose_line raw p =
      let line = strip raw in
      elim (after_prefix (codes "Estimated power use") line) [
        | some _ ↦ some (record p { in_power = true })
        | none ↦
            if not p.in_power
            then some p
            else if is_empty line
            then some (record p { in_power = false })
            else power_line line p
      ]

  unfoldable pub prose_lines : List Text → Prose F → Option (Prose F)
  prose_lines [] p = some p
  prose_lines (line ∷ lines) p = with_some (prose_line line p) (prose_lines lines)

  unfoldable pub parse_human : List Text → Option (Prose F)
  parse_human lines = prose_lines lines no_prose
