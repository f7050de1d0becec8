-- ===== src/BatteryWatch/RollCall/Daily.antt =====
-- How often the roll call is sent.
use stayturgid.Base.{
  ℕ, ◌+◌, ◌≤◌, ◌≡◌, refl, true, false, ◌⊎◌, ◌||◌, not, Option, none, some, List, [], ◌∷◌, Text,
  arith, ◌==◌, if◌then◌else◌, Bool-cases, inl, inr,
}
use stayturgid.BatteryWatch.Status.{Report}
use stayturgid.BatteryWatch.RollCall.{Calendar, rollcall_h, lines_of, is_date, if_any, rollcall}

-- Passes, each with its statuses and its time, from the date of the last roll call on: how many
-- roll calls were sent on the date `d`.
unfoldable pub calls_on : Calendar → ℕ → List (List (Text × Report) × ℕ) → Option ℕ → ℕ
calls_on cal d [] before = 0
calls_on cal d ((statuses, now) ∷ ps) before =
    let (call, before') = rollcall cal statuses before now in
    let rest = calls_on cal d ps before' in
    elim call [ none ↦ rest | some ls ↦ (if cal.date now == d then rest + 1 else rest) ]

-- The dates do not go back.
abbrev pub InOrder : Calendar → ℕ → List (List (Text × Report) × ℕ) → Type 0
InOrder cal d [] = Unit
InOrder cal d ((statuses, now) ∷ ps) = (d ≤ cal.date now) × InOrder cal (cal.date now) ps

-- A roll call is not due, or it is sent if it has lines, and its date is kept.
pub rollcall-cases :
    (cal : Calendar) (statuses : List (Text × Report)) (before : Option ℕ) (now : ℕ)
    → (rollcall cal statuses before now ≡ (none, before))
      ⊎ ((cal.hour now ≡ rollcall_h)
          × (is_date before (cal.date now) ≡ false)
          × (rollcall cal statuses before now
              ≡ (if_any (lines_of statuses now), some (cal.date now))))
unfolding rollcall
rollcall-cases cal statuses before now =
    elim (Bool-cases (not (cal.hour now == rollcall_h) || is_date before (cal.date now))) [
      | inl skip ↦ inl (rw (skip, rollcall))
      | inr due ↦ inr (ground arith, ground arith, rw (due, rollcall))
    ]

-- The date `d` is past, or its roll call is done.
abbrev Over : ℕ → ℕ → Option ℕ → Type 0
Over d e before = (d ≤ e) × ((d + 1 ≤ e) ⊎ (is_date before d ≡ true))

Over-step :
    (cal : Calendar) (d e : ℕ) (statuses : List (Text × Report)) (now : ℕ) (before : Option ℕ)
    → e ≤ cal.date now
    → Over d e before
    → Over d (cal.date now) (rollcall cal statuses before now).1
Over-step cal d e statuses now before le h = elim (rollcall-cases cal statuses before now) [
  | inl same ↦ rw same (ground arith)
  | inr (hour, fresh, sent) ↦ rw sent (ground arith)
]

calls-Over :
    (cal : Calendar) (d e : ℕ) (ps : List (List (Text × Report) × ℕ)) (before : Option ℕ)
    → InOrder cal e ps
    → Over d e before
    → calls_on cal d ps before ≡ 0
unfolding calls_on
calls-Over cal d e [] before h k = refl
calls-Over cal d e ((statuses, now) ∷ ps) before h k =
    let ih =
      calls-Over cal d (cal.date now) ps (rollcall cal statuses before now).1 h.1
        (Over-step cal d e statuses now before h.0 k) in
    elim (rollcall-cases cal statuses before now) [
      | inl same ↦ ground (arith, ih, same)
      | inr (hour, fresh, sent) ↦ ground (arith, ih, sent)
    ]

-- On no date is the roll call sent twice, as long as the dates of the passes do not go back.
pub rollcall_daily :
    (cal : Calendar) (d e : ℕ) (ps : List (List (Text × Report) × ℕ)) (before : Option ℕ)
    → InOrder cal e ps
    → calls_on cal d ps before ≤ 1
unfolding calls_on
rollcall_daily cal d e [] before h = omega arith
rollcall_daily cal d e ((statuses, now) ∷ ps) before h =
    let ih = rollcall_daily cal d (cal.date now) ps (rollcall cal statuses before now).1 h.1 in
    let over = calls-Over cal d (cal.date now) ps (rollcall cal statuses before now).1 h.1 in
    elim (rollcall-cases cal statuses before now) [
      | inl same ↦ ground (arith, ih, same)
      | inr (hour, fresh, sent) ↦ elim (Bool-cases (cal.date now == d)) [
        | inl today ↦ ground (arith, sent, over (rw sent (ground arith)))
        | inr other ↦ ground (arith, ih, sent)
      ]
    ]
