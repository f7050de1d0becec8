-- ===== src/FleetHealth/Report.antt =====
-- The report of a probe and how it is read: `parse_kv`, `extract_devlog_lines`, `_int_age` and
-- `_normalize_status_fields` of control/lib/fleet_health.py. A text comes as the list of its lines.
pub mod Devlog
use stayturgid.Base.{
  ℕ, ◌+◌, ◌-◌, ◌*◌, Bool, true, false, ◌||◌, ◌&&◌, not, Option, none, some, List, [], ◌∷◌, ◌++◌,
  Text, codes, is_empty, text_eq, member, strip, is_space, leb, ◌==◌, if◌then◌else◌, Dict, get,
  assign, after_prefix,
}

abbrev pub Report : Type 0
Report = Dict Text

-- `partition`, on one character: what stands before it and after it, if it is there.
unfoldable pub partition : ℕ → Text → Option (Text × Text)
partition c [] = none
partition c (d ∷ s) =
    let rest = partition c s in
    if d == c
    then some ([], s)
    else elim rest [ none ↦ none | some (before, after) ↦ some (d ∷ before, after) ]

abbrev starts_with_hash : Text → Bool
starts_with_hash [] = false
starts_with_hash (c ∷ s) = c == b'#'

-- One line of `parse_kv`, stripped.
unfoldable pub parse_line : Text → Report → Report
parse_line line out =
    if is_empty line || starts_with_hash line
    then out
    else elim (partition b'=' line) [ none ↦ out | some (k, v) ↦ assign (strip k) (strip v) out ]

unfoldable pub parse_lines : List Text → Report → Report
unfolding parse_line
parse_lines [] out = out
parse_lines (line ∷ lines) out = parse_lines lines (parse_line (strip line) out)

unfoldable pub parse_kv : List Text → Report
unfolding parse_lines
parse_kv lines = parse_lines lines []

pub data Source : Type 0 where
  watchdog_log agent_log : Source

-- A line of a device's log, with the log it is from.
abbrev pub Entry : Type 0
Entry = Source × Text

-- `_DEVLOG_MARKERS.get`
unfoldable pub devlog_marker : Text → Option Source
devlog_marker marker =
    if text_eq marker (codes "DEVLOG_WATCHDOG")
    then some watchdog_log
    else if text_eq marker (codes "DEVLOG_AGENT")
    then some agent_log
    else none

-- The entry that a line is, if it begins with a marker and `|`.
unfoldable pub entry_of : Text → Option Entry
unfolding devlog_marker
entry_of line = elim (partition b'|' line) [
  | none ↦ none
  | some (marker, rest) ↦ elim (devlog_marker marker) [
    | none ↦ none
    | some source ↦ some (source, rest)
  ]
]

-- The lines that are kept, and the entries.
unfoldable pub extract_devlog_lines : List Text → List Text × List Entry
extract_devlog_lines [] = ([], [])
extract_devlog_lines (line ∷ lines) =
    let (kept, found) = extract_devlog_lines lines in
    elim (entry_of line) [ none ↦ (line ∷ kept, found) | some e ↦ (kept, e ∷ found) ]

abbrev digits : ℕ → Text → Option ℕ
digits n [] = some n
digits n (c ∷ s) =
    let rest = digits (n * 10 + (c - b'0')) s in if leb b'0' c && leb c b'9' then rest else none

abbrev natural : Text → Option ℕ
natural [] = none
natural (c ∷ s) = digits 0 (c ∷ s)

abbrev negative : Option ℕ → Option ℕ
negative none = none
negative (some n) = some 0

-- `int` of a stripped text. A negative number counts as 0, since ages are only compared with positive
-- limits; underscores between digits, which no probe prints, are not read.
abbrev integer : Text → Option ℕ
integer [] = none
integer (c ∷ s) =
    if c == b'-' then negative (natural s) else if c == b'+' then natural s else natural (c ∷ s)

unfoldable pub int_age : Option Text → Option ℕ
int_age none = none
int_age (some raw) =
    if member raw (codes "missing" ∷ codes "unknown" ∷ [] ∷ []) then none else integer (strip raw)

-- `[^\s]+`
abbrev word : Text → Text
word [] = []
word (c ∷ s) = let rest = word s in if is_space c then [] else c ∷ rest

abbrev word_after : Text → Text → Text
word_after p s = elim (after_prefix p s) [ none ↦ [] | some rest ↦ word rest ]

-- `re.search`: the first place where the field, `=` and a word stand.
unfoldable pub search_field : Text → Text → Option Text
search_field p [] = none
search_field p (c ∷ s) =
    let later = search_field p s in
    let here = word_after p (c ∷ s) in if is_empty here then later else some here

abbrev status_fields : List Text
status_fields =
    codes "a11y"
    ∷ codes "port"
    ∷ codes "shizuku"
    ∷ codes "tailscale"
    ∷ codes "tailscale_policy"
    ∷ codes "shizuku_auth"
    ∷ []

abbrev fill_field : Text → Text → Report → Report
fill_field line field r = elim (get field r) [
  | some v ↦ r
  | none ↦ elim (search_field (field ++ codes "=") line) [ none ↦ r | some v ↦ assign field v r ]
]

unfoldable pub fill_fields : Text → List Text → Report → Report
fill_fields line [] r = r
fill_fields line (field ∷ fields) r = fill_fields line fields (fill_field line field r)

unfoldable pub normalize_status_fields : Report → Report
unfolding fill_fields
normalize_status_fields r = elim (get (codes "status_line") r) [
  | none ↦ r
  | some line ↦ fill_fields line status_fields r
]
