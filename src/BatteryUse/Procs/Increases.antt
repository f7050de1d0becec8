-- ===== src/BatteryUse/Procs/Increases.antt =====
-- What `proc_delta` sums.
use stayturgid.Base.{
  ◌≡◌, refl, sym, ap, ◌∙◌, inl, inr, true, false, Option, none, some, List, [], ◌∷◌, Option-cases,
  Bool-cases, ◌⊎◌, All, ℤ, pos, ◌+ℤ◌, negℤ, lebℤ, zero_add, add_zero, add_assoc, sub_nonneg,
}
use stayturgid.BatteryUse.Procs.{Proc, ProcTable, ticks_of, increase, add_increases, proc_delta}

-- The ticks that the processes of the sample have added, each since the saved count of its pid and start.
abbrev pub gains : ProcTable → List Proc → List ℤ
gains prev [] = []
gains prev (p ∷ ps) = elim (increase prev p) [ none ↦ gains prev ps | some d ↦ d ∷ gains prev ps ]

abbrev pub sum_ints : List ℤ → ℤ
sum_ints [] = pos 0
sum_ints (n ∷ ns) = n +ℤ sum_ints ns

abbrev pub total_of : List ℤ → Option ℤ
total_of [] = none
total_of (n ∷ ns) = some (sum_ints (n ∷ ns))

add_increases-used :
    (prev : ProcTable) (ps : List Proc) (total : ℤ)
    → add_increases prev ps total true ≡ some (total +ℤ sum_ints (gains prev ps))
unfolding add_increases
add_increases-used prev [] total = ap some (sym (add_zero total))
add_increases-used prev (p ∷ ps) total = elim (Option-cases (increase prev p)) [
  | inl gone ↦ rw (add_increases, gains, gone) (add_increases-used prev ps total)
  | inr (d, found) ↦
      rw (add_increases, gains, found)
        (add_increases-used prev ps (total +ℤ d)
          ∙ ap some (add_assoc total d (sum_ints (gains prev ps))))
]

add_increases-unused :
    (prev : ProcTable) (ps : List Proc)
    → add_increases prev ps (pos 0) false ≡ total_of (gains prev ps)
unfolding add_increases
add_increases-unused prev [] = refl
add_increases-unused prev (p ∷ ps) = elim (Option-cases (increase prev p)) [
  | inl gone ↦ rw (add_increases, gains, gone) (add_increases-unused prev ps)
  | inr (d, found) ↦
      rw (add_increases, gains, found)
        (add_increases-used prev ps (pos 0 +ℤ d)
          ∙ ap (λ n. some (n +ℤ sum_ints (gains prev ps))) (zero_add d))
]

increase_cases :
    (prev : ProcTable) (p : Proc)
    → (increase prev p ≡ none) ⊎ ((d : ℤ) × (increase prev p ≡ some d) × (lebℤ (pos 0) d ≡ true))
unfolding increase
increase_cases prev p = elim (Option-cases (ticks_of prev p.pid p.start)) [
  | inl new ↦ inl (rw (increase, new) refl)
  | inr (old, known) ↦ elim (Bool-cases (lebℤ old p.cpu_ticks)) [
    | inl more ↦
        inr (
          p.cpu_ticks +ℤ negℤ old,
          rw (increase, known, more) refl,
          sub_nonneg old p.cpu_ticks more,
        )
    | inr less ↦ inl (rw (increase, known, less) refl)
  ]
]

gains_nonneg :
    (prev : ProcTable) (ps : List Proc) → All (λ d. lebℤ (pos 0) d ≡ true) (gains prev ps)
gains_nonneg prev [] = tt
gains_nonneg prev (p ∷ ps) = elim (increase_cases prev p) [
  | inl gone ↦ rw (gains, gone) (gains_nonneg prev ps)
  | inr (d, found, up) ↦ rw (gains, found) (up, gains_nonneg prev ps)
]

-- The change of the processor time is the sum of the increases of the processes that were there before,
-- none of which is negative; there is none when no such process is left.
pub proc_delta_lem :
    (prev : ProcTable) (ps : List Proc)
    → (proc_delta prev ps ≡ total_of (gains prev ps))
      × All (λ d. lebℤ (pos 0) d ≡ true) (gains prev ps)
unfolding proc_delta
proc_delta_lem prev ps = (add_increases-unused prev ps, gains_nonneg prev ps)

-- No process was in an empty table.
pub gains_empty : (ps : List Proc) → gains [] ps ≡ []
unfolding increase ticks_of
gains_empty [] = refl
gains_empty (p ∷ ps) = gains_empty ps
