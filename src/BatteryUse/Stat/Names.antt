-- ===== src/BatteryUse/Stat/Names.antt =====
-- Command names with spaces and parentheses in them.
use stayturgid.Base.{
  ℕ, ◌≡◌, refl, ap, true, false, none, some, [], ◌∷◌, ◌++◌, Text, take, ◌==◌, ==_iff,
}
use stayturgid.BatteryUse.Stat.{
  after_last, before_last, after_first, words_from, stat_fields, parse_proc_stat, text_comm,
}

-- The text has no such character.
abbrev pub IsWithout : ℕ → Text → Type 0
IsWithout b [] = Unit
IsWithout b (c ∷ s) = ((c == b) ≡ false) × IsWithout b s

==_refl : (n : ℕ) → (n == n) ≡ true
==_refl n = (==_iff n n).1 refl

after_last-without : (b : ℕ) (s : Text) → IsWithout b s → after_last b s ≡ none
unfolding after_last
after_last-without b [] h = refl
after_last-without b (c ∷ s) h = rw (after_last, after_last-without b s h.1, h.0) refl

after_last-append : (b : ℕ) (s t : Text) → IsWithout b t → after_last b (s ++ b ∷ t) ≡ some t
unfolding after_last
after_last-append b [] t h = rw (after_last, after_last-without b t h, ==_refl b) refl
after_last-append b (c ∷ s) t h = rw (after_last, after_last-append b s t h) refl

before_last-without : (b : ℕ) (s : Text) → IsWithout b s → before_last b s ≡ none
unfolding before_last
before_last-without b [] h = refl
before_last-without b (c ∷ s) h = rw (before_last, before_last-without b s h.1, h.0) refl

before_last-append : (b : ℕ) (s t : Text) → IsWithout b t → before_last b (s ++ b ∷ t) ≡ some s
unfolding before_last
before_last-append b [] t h = rw (before_last, before_last-without b t h, ==_refl b) refl
before_last-append b (c ∷ s) t h = rw (before_last, before_last-append b s t h) refl

after_first-append : (b : ℕ) (s t : Text) → IsWithout b s → after_first b (s ++ b ∷ t) ≡ some t
unfolding after_first
after_first-append b [] t h = rw (after_first, ==_refl b) refl
after_first-append b (c ∷ s) t h = rw (after_first, h.0, after_first-append b s t h.1) refl

-- A line of `stat`: a pid, the command's name in parentheses, and the fields.
abbrev pub stat_line : Text → Text → Text → Text
stat_line pid comm tail = pid ++ b'(' ∷ (comm ++ b')' ∷ tail)

assoc : (s t u : Text) → s ++ (t ++ u) ≡ (s ++ t) ++ u
assoc [] t u = refl
assoc (c ∷ s) t u = ap (◌∷◌ c) (assoc s t u)

-- Whatever parentheses and spaces the command's name has, the numbers are read of the fields after it,
-- and the name is read back, cut to 180 characters, if the pid has no `(` and the fields have no `)`.
pub parse_proc_stat-stat_line :
    (pid comm tail : Text)
    → IsWithout b'(' pid
    → IsWithout b')' tail
    → (parse_proc_stat (stat_line pid comm tail) ≡ stat_fields (words_from [] tail))
      × (text_comm (stat_line pid comm tail) ≡ take 180 comm)
unfolding parse_proc_stat text_comm
parse_proc_stat-stat_line pid comm tail hp ht = (
  rw
      (
        ap (after_last b')') (assoc pid (b'(' ∷ comm) (b')' ∷ tail)),
        after_last-append b')' (pid ++ b'(' ∷ comm) tail ht,
      )
      refl,
  rw
      (
        text_comm,
        after_first-append b'(' pid (comm ++ b')' ∷ tail) hp,
        before_last-append b')' comm tail ht,
      )
      refl,
)
