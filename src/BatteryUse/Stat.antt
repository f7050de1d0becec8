-- ===== src/BatteryUse/Stat.antt =====
-- The process table as `/proc` shows it: `parse_proc_stat`, `text_comm` and `scan_procs` of
-- device/termux/py/stayturgid_battery_use.py.
pub mod Names
use stayturgid.Base.{
  ℕ, zero, suc, ◌+◌, ◌-◌, ◌*◌, Bool, true, false, not, ◌&&◌, Option, none, some, List, [], ◌∷◌,
  ◌++◌, map, Text, length, take, is_empty, is_space, strip, ltb, ◌==◌, if◌then◌else◌, is_digit, ℤ,
  ◌+ℤ◌, int_of, decimal,
}
use stayturgid.BatteryUse.Fields.{with_some}
use stayturgid.BatteryUse.Procs.{Proc}

-- What follows the last place of a character.
unfoldable pub after_last : ℕ → Text → Option Text
after_last b [] = none
after_last b (c ∷ s) = elim (after_last b s) [
  | some t ↦ some t
  | none ↦ if c == b then some s else none
]

-- What precedes the last place of a character.
unfoldable pub before_last : ℕ → Text → Option Text
before_last b [] = none
before_last b (c ∷ s) = elim (before_last b s) [
  | some t ↦ some (c ∷ t)
  | none ↦ if c == b then some [] else none
]

-- What follows the first place of a character.
unfoldable pub after_first : ℕ → Text → Option Text
after_first b [] = none
after_first b (c ∷ s) = let rest = after_first b s in if c == b then some s else rest

abbrev pub add_word : Text → List Text → List Text
add_word word words = if is_empty word then words else word ∷ words

-- `text.split()`, given the word so far.
unfoldable pub words_from : Text → Text → List Text
words_from word [] = add_word word []
words_from word (c ∷ s) = elim (is_space c) [
  | true ↦ add_word word (words_from [] s)
  | false ↦ words_from (word ++ c ∷ []) s
]

abbrev pub nth : ℕ → List Text → Text
nth n [] = []
nth zero (f ∷ fs) = f
nth (suc n) (f ∷ fs) = nth n fs

-- utime, stime and starttime of the fields after the command's name.
unfoldable pub stat_fields : List Text → Option (ℤ × ℤ × ℤ)
stat_fields fields =
    if ltb (length fields) 20
    then none
    else with_some (int_of (nth 11 fields)) (λ utime.
      with_some (int_of (nth 12 fields))
        (λ stime. with_some (int_of (nth 19 fields)) (λ start. some (utime, stime, start))))

unfoldable pub parse_proc_stat : Text → Option (ℤ × ℤ × ℤ)
parse_proc_stat text = with_some (after_last b')' text) (λ rest. stat_fields (words_from [] rest))

-- The name of the command; the last `)` counts only after the first `(`.
unfoldable pub text_comm : Text → Text
text_comm text = elim (with_some (after_first b'(' text) (before_last b')')) [
  | none ↦ []
  | some name ↦ take 180 name
]

-- An entry of `/proc`: its name, and its files `stat` and `cmdline`, if they can be read.
pub record Entry : Type 0 where
  pub name : Text
  pub stat : Option Text
  pub cmdline : Option (List ℕ)

-- `raw.replace(b"\0", b" ")`
abbrev pub spaced : List ℕ → List ℕ
spaced = map (λ b. if b == 0 then 32 else b)

-- `decode` is `bytes.decode("utf-8", "replace")`.
abbrev cmd_of : (List ℕ → Text) → Text → Option (List ℕ) → Text
cmd_of decode stat raw =
    let cmd : Text = elim raw [ none ↦ [] | some bytes ↦ strip (decode (spaced bytes)) ] in
    take 180 (if is_empty cmd then text_comm stat else cmd)

abbrev all_digits : Text → Bool
all_digits [] = true
all_digits (c ∷ s) = is_digit c && all_digits s

-- `name.isdigit()`, of an ASCII name.
abbrev is_number : Text → Bool
is_number name = not (is_empty name) && all_digits name

-- The row of an entry whose name is a number and whose `stat` can be read and parsed.
unfoldable pub scan_entry : (List ℕ → Text) → Entry → Option Proc
scan_entry decode e = with_some (if is_number e.name then decimal false 0 e.name else none) (λ pid.
    with_some e.stat (λ stat. with_some (parse_proc_stat stat) (λ parsed.
      let (utime, stime, start) = parsed in
      some (record {
        pid = pid;
        start = start;
        cpu_ticks = utime +ℤ stime;
        cmd = cmd_of decode stat e.cmdline;
      }))))

-- `none` is that `/proc` cannot be listed.
unfoldable pub scan_procs : (List ℕ → Text) → Option (List Entry) → List Proc
scan_procs decode none = []
scan_procs decode (some []) = []
scan_procs decode (some (e ∷ es)) =
    let rest = scan_procs decode (some es) in
    elim (scan_entry decode e) [ none ↦ rest | some p ↦ p ∷ rest ]
