-- ===== src/FleetHealth/Report/Devlog.antt =====
-- The lines of the device's logs and the report.
use stayturgid.Base.{◌≡◌, refl, some, List, [], ◌∷◌, ◌++◌, Text, Option-cases, inl, inr}
use stayturgid.FleetHealth.Report.{Entry, entry_of, extract_devlog_lines, parse_kv}

-- The texts of what is kept and found come in the order of the lines.
extract-append :
    (xs ys : List Text)
    → extract_devlog_lines (xs ++ ys) ≡ (
      (extract_devlog_lines xs).0 ++ (extract_devlog_lines ys).0,
      (extract_devlog_lines xs).1 ++ (extract_devlog_lines ys).1,
    )
unfolding extract_devlog_lines
extract-append [] ys = refl
extract-append (x ∷ xs) ys = elim (Option-cases (entry_of x)) [
  | inl plain ↦ rw (extract_devlog_lines, plain, extract-append xs ys)
  | inr (e, marked) ↦ rw (extract_devlog_lines, marked, extract-append xs ys)
]

-- A marked line of a device's log, whatever it says, leaves the report as it is without it.
pub parse_kv-extract :
    (before after : List Text) (line : Text) (e : Entry)
    → entry_of line ≡ some e
    → parse_kv (extract_devlog_lines (before ++ line ∷ after)).0
      ≡ parse_kv (extract_devlog_lines (before ++ after)).0
unfolding extract_devlog_lines
parse_kv-extract before after line e marked = rw (
  extract-append before (line ∷ after),
  extract-append before after,
  extract_devlog_lines,
  marked,
)
