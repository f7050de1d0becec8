-- ===== src/BatteryUse/Fields.antt =====
-- The comma-separated fields of a line of `dumpsys batterystats --checkin`: `_ints`, `_parse_wl` and
-- `_parse_job` of device/termux/py/stayturgid_battery_use.py.
pub mod Names
use stayturgid.Base.{
  ℕ, zero, suc, Bool, true, false, not, ◌||◌, Option, none, some, List, [], ◌∷◌, ◌++◌, reverse,
  Text, codes, text_eq, length, ltb, ◌==◌, if◌then◌else◌, drop, ℤ, int_of,
}

-- `text.split(",")`
unfoldable pub split_commas : Text → List Text
split_commas [] = [] ∷ []
split_commas (c ∷ s) = elim (split_commas s) [
  | [] ↦ []
  | word ∷ words ↦ if c == b',' then [] ∷ word ∷ words else (c ∷ word) ∷ words
]

-- `",".join(words)`
unfoldable pub join_commas : List Text → Text
join_commas [] = []
join_commas (word ∷ words) = elim words [ [] ↦ word | _ ∷ _ ↦ word ++ b',' ∷ join_commas words ]

-- `xs[-k]` of a list that is not shorter, by its reverse.
abbrev pub back : ℕ → List Text → Text
back k [] = []
back zero (x ∷ xs) = []
back (suc zero) (x ∷ xs) = x
back (suc (suc k)) (x ∷ xs) = back (suc k) xs

-- `xs[:-k]`, given the reverse of `xs`.
abbrev pub but_last : ℕ → List Text → List Text
but_last k reversed = reverse (drop k reversed)

abbrev pub with_some {ℓ κ} : {A : Type ℓ} {B : Type κ} → Option A → (A → Option B) → Option B
with_some none f = none
with_some (some a) f = f a

-- `_ints`: every field as a number, or none of them.
unfoldable pub ints : List Text → Option (List ℤ)
ints [] = some []
ints (f ∷ fs) = with_some (int_of f) (λ n. with_some (ints fs) (λ ns. some (n ∷ ns)))

pub record Wakelock : Type 0 where
  pub name : Text
  pub full_ms : ℤ
  pub full_n : ℤ
  pub partial_ms : ℤ
  pub partial_n : ℤ
  pub window_ms : ℤ
  pub window_n : ℤ

-- The name is everything before nine tail fields.
unfoldable pub parse_wl : List Text → Option Wakelock
parse_wl rest =
    let r = reverse rest in
    if ltb (length rest) 10
      || not (text_eq (back 8 r) (codes "f"))
      || not (text_eq (back 5 r) (codes "p"))
      || not (text_eq (back 2 r) (codes "w"))
    then none
    else with_some (int_of (back 9 r)) (λ full_ms. with_some (int_of (back 7 r)) (λ full_n.
      with_some (int_of (back 6 r)) (λ partial_ms. with_some (int_of (back 4 r)) (λ partial_n.
        with_some (int_of (back 3 r)) (λ window_ms. with_some (int_of (back 1 r)) (λ window_n.
          some (record {
            name = join_commas (but_last 9 r);
            full_ms = full_ms;
            full_n = full_n;
            partial_ms = partial_ms;
            partial_n = partial_n;
            window_ms = window_ms;
            window_n = window_n;
          })))))))

pub record Job : Type 0 where
  pub name : Text
  pub time_ms : ℤ
  pub count : ℤ

unfoldable pub parse_job : List Text → Option Job
parse_job rest =
    let r = reverse rest in
    if ltb (length rest) 3
    then none
    else with_some (int_of (back 2 r)) (λ time_ms. with_some (int_of (back 1 r)) (λ count.
      some (record { name = join_commas (but_last 2 r); time_ms = time_ms; count = count })))
