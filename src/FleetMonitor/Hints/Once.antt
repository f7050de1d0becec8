-- ===== src/FleetMonitor/Hints/Once.antt =====
-- How often a hint is logged.
use stayturgid.Base.{
  ◌≡◌, refl, true, List, [], ◌∷◌, arith, All, All-imp, Text, member, text_eq_refl,
}
use stayturgid.Base.{sorted_set}
use stayturgid.FleetMonitor.Stamps.{Device}
use stayturgid.FleetMonitor.Hints.{minus, log_issue_hints}

minus-All : (xs ys : List Text) → All (λ x. member x ys ≡ true) xs → minus xs ys ≡ []
unfolding minus
minus-All [] ys h = refl
minus-All (x ∷ xs) ys h = rw h.0 (minus-All xs ys h.1)

member_cons : (x y : Text) (ys : List Text) → member x ys ≡ true → member x (y ∷ ys) ≡ true
member_cons x y ys h = ground (arith, h)

All-member_self : (xs : List Text) → All (λ x. member x xs ≡ true) xs
All-member_self [] = tt
All-member_self (x ∷ xs) = (
  ground (arith, text_eq_refl x),
  All-imp (λ y. member y xs ≡ true) (λ y. member y (x ∷ xs) ≡ true) xs (λ y. member_cons y x xs)
      (All-member_self xs),
)

minus_self : (xs : List Text) → minus xs xs ≡ []
minus_self xs = minus-All xs xs (All-member_self xs)

-- A second pass that finds the same issues logs no hint and clears none.
pub hints_once :
    (issues : List Text) (s : Device)
    → let s' = (log_issue_hints issues s).0 in log_issue_hints issues s' ≡ (s', [])
unfolding log_issue_hints sorted_set
hints_once issues s = rw minus_self refl
