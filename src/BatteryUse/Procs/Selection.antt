-- ===== src/BatteryUse/Procs/Selection.antt =====
-- Which processes a sample keeps.
use stayturgid.Base.{
  ℕ, ◌≡◌, refl, inl, inr, ◌⊎◌, ◌≤◌, true, false, not, ◌&&◌, List, [], ◌∷◌, ◌++◌, arith, take,
  length, length-take-le, All, All-imp, Bool-cases, ◌==◌, lebℤ, All-append, All-take, ranked-All,
  ranked, ranked-In, ranked-IsRanked, Before, In, here, there, In-take_drop, All-at, IsRanked-take,
  drop,
}
use stayturgid.BatteryUse.Procs.{Proc, proc_top_n, is_daemon, has_pid, missed, select_procs}

abbrev pub by_ticks : List Proc → List Proc
by_ticks = ranked (λ p. p.cpu_ticks)

-- The selected processes are at most thirty, which no process outside exceeds in ticks, and after them
-- daemons with other pids. Every daemon's pid is selected, and no process is made up.
pub record IsSelection (procs selected : List Proc) : Type 0 where
  pub top : List Proc
  pub extra : List Proc
  pub parts : selected ≡ top ++ extra
  pub few : length top ≤ proc_top_n
  pub busiest : All (λ p. In p top ⊎ All (λ q. lebℤ p.cpu_ticks q.cpu_ticks ≡ true) top) procs
  pub daemons : All (λ p. (is_daemon p ≡ false) ⊎ (has_pid p.pid selected ≡ true)) procs
  pub others : All (λ p. (is_daemon p ≡ true) × (has_pid p.pid top ≡ false)) extra
  pub genuine : All (λ p. In p procs) selected

has_pid-append_left :
    (n : ℕ) (ps qs : List Proc) → has_pid n ps ≡ true → has_pid n (ps ++ qs) ≡ true
has_pid-append_left n [] qs h = cc
has_pid-append_left n (p ∷ ps) qs h = ground (arith, has_pid-append_left n ps qs)

has_pid-append_right :
    (n : ℕ) (ps qs : List Proc) → has_pid n qs ≡ true → has_pid n (ps ++ qs) ≡ true
has_pid-append_right n [] qs h = h
has_pid-append_right n (p ∷ ps) qs h = ground (arith, has_pid-append_right n ps qs)

==_refl : (n : ℕ) → (n == n) ≡ true
==_refl n = ground arith

has_pid-missed :
    (top ps : List Proc) {p : Proc}
    → In p ps
    → is_daemon p ≡ true
    → has_pid p.pid top ≡ false
    → has_pid p.pid (missed top ps) ≡ true
unfolding missed
has_pid-missed top [] h d new = elim h [ ]
has_pid-missed top (p ∷ ps) here d new = rw (new, d) (rw (==_refl p.pid) refl)
has_pid-missed top (q ∷ ps) {p = p} (there h) d new = ground (arith, has_pid-missed top ps h d new)

missed-others :
    (top ps : List Proc)
    → All (λ p. (is_daemon p ≡ true) × (has_pid p.pid top ≡ false)) (missed top ps)
unfolding missed
missed-others top [] = tt
missed-others top (p ∷ ps) = elim (Bool-cases (has_pid p.pid top)) [
  | inl seen ↦ rw seen (missed-others top ps)
  | inr new ↦ elim (Bool-cases (is_daemon p)) [
    | inl daemon ↦ rw (new, daemon) ((daemon, new), missed-others top ps)
    | inr other ↦ rw (new, other) (missed-others top ps)
  ]
]

missed-All : (P : Proc → Type 0) (top ps : List Proc) → All P ps → All P (missed top ps)
unfolding missed
missed-All P top [] h = tt
missed-All P top (p ∷ ps) h = elim (Bool-cases (not (has_pid p.pid top) && is_daemon p)) [
  | inl kept ↦ rw kept (h.0, missed-All P top ps h.1)
  | inr dropped ↦ rw dropped (missed-All P top ps h.1)
]

All-In {ℓ} : {A : Type ℓ} (xs : List A) → All (λ x. In x xs) xs
All-In [] = tt
All-In (x ∷ xs) =
    (here, All-imp (λ y. In y xs) (λ y. In y (x ∷ xs)) xs (λ y h. there h) (All-In xs))

dominated :
    (procs : List Proc) (p : Proc)
    → In p (drop proc_top_n (by_ticks procs))
    → All (λ q. lebℤ p.cpu_ticks q.cpu_ticks ≡ true) (take proc_top_n (by_ticks procs))
dominated procs p h =
    let rest = drop proc_top_n (by_ticks procs) in
    All-imp (λ q. All (Before (λ r. r.cpu_ticks) q) rest) (λ q. lebℤ p.cpu_ticks q.cpu_ticks ≡ true)
      (take proc_top_n (by_ticks procs)) (λ q k. All-at (Before (λ r. r.cpu_ticks) q) k h)
      (IsRanked-take (λ r. r.cpu_ticks) proc_top_n (by_ticks procs)
        (ranked-IsRanked (λ r. r.cpu_ticks) procs))

abbrev map_right {ℓ κ μ} : {A : Type ℓ} {B : Type κ} {C : Type μ} → A ⊎ B → (B → C) → A ⊎ C
map_right (inl a) f = inl a
map_right (inr b) f = inr (f b)

All-each {ℓ κ} : {A : Type ℓ} {P : A → Type κ} (xs : List A) → ((x : A) → In x xs → P x) → All P xs
All-each [] f = tt
All-each (x ∷ xs) f = (f x here, All-each xs (λ y h. f y (there h)))

daemon_kept :
    (procs : List Proc) (p : Proc)
    → In p procs
    → (is_daemon p ≡ false) ⊎ (has_pid p.pid (select_procs procs) ≡ true)
unfolding select_procs
daemon_kept procs p h =
    let top = take proc_top_n (by_ticks procs) in
    elim (Bool-cases (is_daemon p)) [
      | inr other ↦ inl other
      | inl d ↦ elim (Bool-cases (has_pid p.pid top)) [
        | inl seen ↦ inr (has_pid-append_left p.pid top (missed top (by_ticks procs)) seen)
        | inr new ↦ inr (
            has_pid-append_right p.pid top (missed top (by_ticks procs))
              (has_pid-missed top (by_ticks procs) (ranked-In (λ q. q.cpu_ticks) procs h) d new))
      ]
    ]

-- `select_procs` keeps at most thirty processes, none of the others having more ticks than one of them,
-- and after them every CFEngine daemon whose pid is not among them.
pub select_procs-IsSelection : (procs : List Proc) → IsSelection procs (select_procs procs)
unfolding select_procs
select_procs-IsSelection procs =
    let top = take proc_top_n (by_ticks procs) in
    let extra = missed top (by_ticks procs) in
    let all = ranked-All (λ p. p.cpu_ticks) (λ p. In p procs) procs (All-In procs) in
    record {
      top = top;
      extra = extra;
      parts = refl;
      few = length-take-le proc_top_n (by_ticks procs);
      busiest = All-each procs (λ p h.
          map_right
            (In-take_drop proc_top_n (by_ticks procs) (ranked-In (λ q. q.cpu_ticks) procs h))
            (dominated procs p));
      daemons = All-each procs (λ p h. daemon_kept procs p h);
      others = missed-others top (by_ticks procs);
      genuine =
          All-append (λ p. In p procs) top extra
            (All-take (λ p. In p procs) proc_top_n (by_ticks procs) all)
            (missed-All (λ p. In p procs) top (by_ticks procs) all);
    }
