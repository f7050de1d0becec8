-- ===== src/BatteryAlarm/Pass/Tiers.antt =====
-- The tiers that apply to a charge, and the marks of those that were alerted.
use stayturgid.Base.{
  ℕ, ◌≤◌, ◌≡◌, ◌≢◌, refl, All, true, ◌||◌, ◌&&◌, Option-cases, none, some, List, [], ◌∷◌, ◌++◌,
  arith, leb, if◌then◌else◌, Bool-cases, inl, inr,
}
use stayturgid.BatteryAlarm.Evening.{number_member}
use stayturgid.BatteryAlarm.Pass.{tiers, applicable, lowest, mark_alerted}

pub member-append :
    (n : ℕ) (xs ys : List ℕ)
    → number_member n (xs ++ ys) ≡ (number_member n xs || number_member n ys)
member-append n [] ys = refl
member-append n (x ∷ xs) ys = ground (arith, member-append n xs ys)

pub member-mark_alerted :
    (n : ℕ) (ts marked : List ℕ)
    → number_member n (mark_alerted ts marked) ≡ (number_member n marked || number_member n ts)
unfolding mark_alerted
member-mark_alerted n [] marked = ground arith
member-mark_alerted n (t ∷ ts) marked = ground (
  arith,
  member-mark_alerted n ts (if number_member t marked then marked else marked ++ t ∷ []),
  member-append n marked (t ∷ []),
)

pub member-applicable :
    (n pct : ℕ) (ts : List ℕ)
    → number_member n (applicable pct ts) ≡ (leb pct n && number_member n ts)
unfolding applicable
member-applicable n pct [] = ground arith
member-applicable n pct (t ∷ ts) = ground (arith, member-applicable n pct ts)

pub lowest-member : (ts : List ℕ) (t : ℕ) → lowest ts ≡ some t → number_member t ts ≡ true
lowest-member [] t h = cc
lowest-member (u ∷ ts) t h = elim (Option-cases (lowest ts)) [
  | inl e ↦ ground arith
  | inr (v, e) ↦ ground (arith, lowest-member ts t)
]

abbrev Decreasing : List ℕ → Type 0
Decreasing [] = Unit
Decreasing (t ∷ ts) = All (λ u. u ≤ t) ts × Decreasing ts

le_of_member : (n t : ℕ) (ts : List ℕ) → All (λ u. u ≤ t) ts → number_member n ts ≡ true → n ≤ t
le_of_member n t [] h m = cc
le_of_member n t (u ∷ ts) h m = ground (arith, le_of_member n t ts h.1)

lowest-ne-none : (n : ℕ) (ts : List ℕ) → number_member n ts ≡ true → lowest ts ≢ none
lowest-ne-none n [] m = cc
lowest-ne-none n (t ∷ ts) m = elim (Option-cases (lowest ts)) [
  | inl e ↦ rw (e, lowest) (λ p. cc)
  | inr (v, e) ↦ rw (e, lowest) (λ p. cc)
]

-- In a decreasing list the last is the least.
lowest-le :
    (n t : ℕ) (ts : List ℕ) → Decreasing ts → number_member n ts ≡ true → lowest ts ≡ some t → t ≤ n
lowest-le n t [] d m h = cc
lowest-le n t (u ∷ ts) d m h = elim (Option-cases (lowest ts)) [
  | inl e ↦ ground (arith, lowest-ne-none n ts)
  | inr (v, e) ↦ ground (arith, lowest-le n v ts d.1, le_of_member v u ts d.0, lowest-member ts v e)
]

applicable-All : (P : ℕ → Type 0) (pct : ℕ) (ts : List ℕ) → All P ts → All P (applicable pct ts)
unfolding applicable
applicable-All P pct [] h = tt
applicable-All P pct (t ∷ ts) h = elim (Bool-cases (leb pct t)) [
  | inl e ↦ rw (e, applicable) (h.0, applicable-All P pct ts h.1)
  | inr e ↦ rw (e, applicable) (applicable-All P pct ts h.1)
]

applicable-Decreasing : (pct : ℕ) (ts : List ℕ) → Decreasing ts → Decreasing (applicable pct ts)
unfolding applicable
applicable-Decreasing pct [] h = tt
applicable-Decreasing pct (t ∷ ts) h = elim (Bool-cases (leb pct t)) [
  | inl e ↦
      rw (e, applicable) (applicable-All (λ u. u ≤ t) pct ts h.0, applicable-Decreasing pct ts h.1)
  | inr e ↦ rw (e, applicable) (applicable-Decreasing pct ts h.1)
]

-- At 30 % and below there is a lowest applicable tier; it is the least tier not below the charge.
pub lowest-applicable :
    (pct : ℕ)
    → pct ≤ 30
    → (t : ℕ) × (lowest (applicable pct tiers) ≡ some t)
      × (number_member t tiers ≡ true)
      × (pct ≤ t)
      × ((u : ℕ) → number_member u tiers ≡ true → pct ≤ u → t ≤ u)
unfolding tiers
lowest-applicable pct h = elim (Option-cases (lowest (applicable pct tiers))) [
  | inl e ↦
      absurd (
        lowest-ne-none 30 (applicable pct tiers) (ground (arith, member-applicable 30 pct tiers)) e)
  | inr (t, e) ↦
      let m = lowest-member (applicable pct tiers) t e in
      let a = member-applicable t pct tiers in
      (
        t,
        e,
        ground (arith, m, a),
        ground (arith, m, a),
        λ u mu le.
            lowest-le u t (applicable pct tiers) (applicable-Decreasing pct tiers (omega arith))
              (ground (arith, member-applicable u pct tiers)) e,
      )
]
