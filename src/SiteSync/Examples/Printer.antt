-- ===== src/SiteSync/Examples/Printer.antt =====
-- A printer of lockfiles and its parser, for the examples.
use stayturgid.Base.{
  ℕ, zero, suc, ◌≡◌, refl, ap, ◌∙◌, Option, none, some, List, [], ◌∷◌, ◌++◌, map, Text,
}
use stayturgid.SiteSync.Manifest.{RawItem}
use stayturgid.SiteSync.Lock.{RawFiles, absent, not_a_list, listed, LockDoc, Yaml, mapping}

-- Lines end with a zero; every other number is one more than the code it stands for.
abbrev pub print_lines : List Text → Text
print_lines [] = []
print_lines (l ∷ ls) = map suc l ++ 0 ∷ print_lines ls

abbrev add_code : ℕ → List Text → List Text
add_code c [] = (c ∷ []) ∷ []
add_code c (l ∷ ls) = (c ∷ l) ∷ ls

abbrev pub parse_lines : Text → List Text
parse_lines [] = []
parse_lines (zero ∷ s) = [] ∷ parse_lines s
parse_lines (suc c ∷ s) = add_code c (parse_lines s)

parse_lines-line : (l s : Text) → parse_lines (map suc l ++ 0 ∷ s) ≡ l ∷ parse_lines s
parse_lines-line [] s = refl
parse_lines-line (c ∷ l) s = ap (add_code c) (parse_lines-line l s)

parse_lines-print_lines : (ls : List Text) → parse_lines (print_lines ls) ≡ ls
parse_lines-print_lines [] = refl
parse_lines-print_lines (l ∷ ls) =
    rw (parse_lines-line l (print_lines ls), parse_lines-print_lines ls) refl

abbrev number_line : Option ℕ → Text
number_line none = []
number_line (some n) = n ∷ []

abbrev line_number : Text → Option ℕ
line_number [] = none
line_number (n ∷ s) = some n

abbrev text_line : Option Text → Text
text_line none = []
text_line (some t) = 0 ∷ t

abbrev line_text : Text → Option Text
line_text [] = none
line_text (n ∷ s) = some s

abbrev item_lines : List RawItem → List Text
item_lines [] = []
item_lines (none ∷ items) = [] ∷ item_lines items
item_lines (some (p, d) ∷ items) = (0 ∷ []) ∷ text_line p ∷ text_line d ∷ item_lines items

abbrev lines_items : List Text → List RawItem
lines_items [] = []
lines_items ([] ∷ ls) = none ∷ lines_items ls
lines_items ((c ∷ l) ∷ p ∷ d ∷ ls) = some (line_text p, line_text d) ∷ lines_items ls
lines_items other = []

line_text-text_line : (t : Option Text) → line_text (text_line t) ≡ t
line_text-text_line none = refl
line_text-text_line (some t) = refl

lines_items-item_lines : (items : List RawItem) → lines_items (item_lines items) ≡ items
lines_items-item_lines [] = refl
lines_items-item_lines (none ∷ items) = ap (◌∷◌ none) (lines_items-item_lines items)
lines_items-item_lines (some (p, d) ∷ items) =
    rw (line_text-text_line p, line_text-text_line d, lines_items-item_lines items) refl

abbrev files_lines : RawFiles → List Text
files_lines absent = []
files_lines not_a_list = [] ∷ []
files_lines (listed items) = (0 ∷ []) ∷ item_lines items

abbrev lines_files : List Text → RawFiles
lines_files [] = absent
lines_files ([] ∷ ls) = not_a_list
lines_files ((c ∷ l) ∷ ls) = listed (lines_items ls)

lines_files-files_lines : (f : RawFiles) → lines_files (files_lines f) ≡ f
lines_files-files_lines absent = refl
lines_files-files_lines not_a_list = refl
lines_files-files_lines (listed items) = ap listed (lines_items-item_lines items)

abbrev doc_lines : LockDoc → List Text
doc_lines d =
    number_line d.contract_version
    ∷ text_line d.product_name
    ∷ text_line d.product_version
    ∷ text_line d.product_commit
    ∷ text_line d.synced
    ∷ files_lines d.files

abbrev lines_doc : List Text → Option LockDoc
lines_doc (a ∷ b ∷ c ∷ d ∷ e ∷ ls) = some (record {
  contract_version = line_number a;
  product_name = line_text b;
  product_version = line_text c;
  product_commit = line_text d;
  synced = line_text e;
  files = lines_files ls;
})
lines_doc other = none

line_number-number_line : (n : Option ℕ) → line_number (number_line n) ≡ n
line_number-number_line none = refl
line_number-number_line (some n) = refl

lines_doc-doc_lines : (d : LockDoc) → lines_doc (doc_lines d) ≡ some d
lines_doc-doc_lines d =
    rw
      (
        line_number-number_line d.contract_version,
        line_text-text_line d.product_name,
        line_text-text_line d.product_version,
        line_text-text_line d.product_commit,
        line_text-text_line d.synced,
        lines_files-files_lines d.files,
      )
      refl

abbrev pub print_doc : LockDoc → Text
print_doc d = print_lines (doc_lines d)

abbrev as_mapping : Option LockDoc → Option Yaml
as_mapping none = none
as_mapping (some d) = some (mapping d)

abbrev pub parse_doc : Text → Option Yaml
parse_doc s = as_mapping (lines_doc (parse_lines s))

pub parse_doc-print_doc : (d : LockDoc) → parse_doc (print_doc d) ≡ some (mapping d)
parse_doc-print_doc d =
    ap (λ ls. as_mapping (lines_doc ls)) (parse_lines-print_lines (doc_lines d))
    ∙ ap as_mapping (lines_doc-doc_lines d)
