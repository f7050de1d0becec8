-- ===== src/BootLoop/Reauth/Bounded.antt =====
-- That the sleep ends, and when; and how often it repairs.
use stayturgid.Base.{
  ℕ, zero, suc, ◌+◌, ◌-◌, ◌≤◌, ◌<◌, ◌≡◌, refl, inl, inr, ◌⊎◌, Bool, true, false, ◌||◌, ◌&&◌, ◌==◌,
  some, [], ◌∷◌, arith, All, All-imp, IsSpaced, Text, text_eq, leb, ltb, Bool-cases, Option-cases,
  ==_iff,
}
use mathlib.Core.Path.{subst}
use stayturgid.BootLoop.Reauth.{
  reauth_min_gap_sec, Stamp, Adb, repair_on_reauth, Moment, round, Slept, cons_if, sleep_watching,
}

-- A round lasts a second at least, and with its check no longer than what is left.
round_lasts :
    (m : Moment) (left now : ℕ) (st : Stamp)
    → 0 < left
    → (0 < (round m left now st).0) × ((round m left now st).0 ≤ left + m.took)
unfolding round
round_lasts m left now st h = elim (Option-cases m.marker) [
  | inl quiet ↦ rw quiet (ground arith)
  | inr (marker, waiting) ↦ rw waiting (ground arith)
]

-- Where the check ran the repair pass, the marker is another one, and the last pass is far enough back.
repair_on_reauth-ran :
    (adb : Adb) (marker : Text) (now : ℕ) (st : Stamp)
    → (repair_on_reauth adb marker now st ≡ (st, false))
      ⊎ ((repair_on_reauth adb marker now st ≡ (record { last = now; consumed = marker }, true))
          × (text_eq marker st.consumed ≡ false)
          × (st.last ≤ now → st.last + reauth_min_gap_sec ≤ now))
unfolding repair_on_reauth
repair_on_reauth-ran adb marker now st =
    elim (Bool-cases
      (text_eq marker st.consumed || leb st.last now && ltb (now - st.last) reauth_min_gap_sec)) [
        | inl early ↦ inl (rw early refl)
        | inr free ↦ elim (Bool-cases adb.listed) [
          | inr off ↦ inl (rw (free, off) refl)
          | inl l ↦ elim (Bool-cases adb.connected) [
            | inr off ↦ inl (rw (free, l, off) refl)
            | inl c ↦ elim (Bool-cases adb.writable) [
              | inr off ↦ inl (rw (free, l, c, off) refl)
              | inl w ↦ inr (rw (free, l, c, w) refl, ground arith, λ h. ground arith)
            ]
          ]
        ]
      ]

-- What a round does to the stamp: nothing, or it repairs, far enough from the last time.
abbrev IsStep : ℕ → Stamp → Stamp × Bool → Type 0
IsStep now st r =
    (r ≡ (st, false))
    ⊎ ((r.1 ≡ true) × (r.0.last ≡ now) × (st.last ≤ now → st.last + reauth_min_gap_sec ≤ now))

round-IsStep :
    (m : Moment) (left now : ℕ) (st : Stamp)
    → IsStep now st ((round m left now st).1, (round m left now st).2)
unfolding round
round-IsStep m left now st = elim (Option-cases m.marker) [
  | inl quiet ↦ inl (rw quiet refl)
  | inr (marker, waiting) ↦ elim (repair_on_reauth-ran m.adb marker now st) [
    | inl same ↦ inl (rw (waiting, same) refl)
    | inr (ran, new, far) ↦ inr (rw (waiting, ran) refl, rw (waiting, ran) refl, far)
  ]
]

-- What the induction over the rounds needs of a finished sleep of `left` seconds from `now`.
record IsBounded (longest left now : ℕ) (st : Stamp) (s : Slept) : Type 0 where
  pub whole : now + left ≤ s.ended
  pub exact : left ≡ 0 → s.ended ≡ now
  pub soon : s.ended ≤ now + left + longest
  pub within : All (λ t. now ≤ t) s.repairs
  pub apart : IsSpaced reauth_min_gap_sec s.repairs
  pub after_last : st.last ≤ now → All (λ t. st.last + reauth_min_gap_sec ≤ t) s.repairs

module _ (longest left now lasted took : ℕ) (some_left : 0 < left) (short : lasted ≤ left + took)
    (few : took ≤ longest) where
  later_soon :
      (ended : ℕ)
      → (left - lasted ≡ 0 → ended ≡ now + lasted)
      → ended ≤ now + lasted + (left - lasted) + longest
      → ended ≤ now + left + longest
  later_soon ended exact soon = elim (Bool-cases (left - lasted == 0)) [
    | inl out ↦ omega (arith, exact ((==_iff (left - lasted) 0).0 out))
    | inr more ↦ ground arith
  ]

  quiet-IsBounded :
      (st : Stamp) (s : Slept)
      → IsBounded longest (left - lasted) (now + lasted) st s
      → IsBounded longest left now st s
  quiet-IsBounded st s b = record {
    whole = omega (arith, b.whole);
    exact = λ e. absurd (omega arith);
    soon = later_soon s.ended b.exact b.soon;
    within = All-imp (λ t. now + lasted ≤ t) (λ t. now ≤ t) s.repairs (λ t h. omega arith) b.within;
    apart = b.apart;
    after_last = λ h. b.after_last (omega arith);
  }

  repaired-IsBounded :
      (st st' : Stamp) (s : Slept)
      → st'.last ≡ now
      → (st.last ≤ now → st.last + reauth_min_gap_sec ≤ now)
      → IsBounded longest (left - lasted) (now + lasted) st' s
      → IsBounded longest left now st (record s { repairs = now ∷ s.repairs })
  repaired-IsBounded st st' s new far b =
      let far_on : All (λ t. now + reauth_min_gap_sec ≤ t) s.repairs =
        subst (λ z. All (λ t. z + reauth_min_gap_sec ≤ t) s.repairs) new
          (b.after_last (omega (arith, new))) in
      record {
        whole = omega (arith, b.whole);
        exact = λ e. absurd (omega arith);
        soon = later_soon s.ended b.exact b.soon;
        within = (
          omega arith,
          All-imp (λ t. now + lasted ≤ t) (λ t. now ≤ t) s.repairs (λ t h. omega arith) b.within,
        );
        apart = (far_on, b.apart);
        after_last = λ h. (
          far h,
          All-imp (λ t. now + reauth_min_gap_sec ≤ t) (λ t. st.last + reauth_min_gap_sec ≤ t)
              s.repairs (λ t k. omega arith) far_on,
        );
      }

  later-IsBounded :
      (st : Stamp) (r : Stamp × Bool) (s : Slept)
      → IsStep now st r
      → IsBounded longest (left - lasted) (now + lasted) r.0 s
      → IsBounded longest left now st (record s { repairs = cons_if r.1 now s.repairs })
  later-IsBounded st r s (inl same) b = rw same (
      quiet-IsBounded st s
        (subst (λ z. IsBounded longest (left - lasted) (now + lasted) z.0 s) same b))
  later-IsBounded st r s (inr (ran, new, far)) b = rw ran (repaired-IsBounded st r.0 s new far b)

watched :
    (longest fuel left now : ℕ) (world : ℕ → Moment) (st : Stamp)
    → ((t : ℕ) → (world t).took ≤ longest)
    → left < fuel
    → (s : Slept) × (sleep_watching fuel world left now st ≡ some s)
      × IsBounded longest left now st s
unfolding sleep_watching
watched longest zero left now world st h enough = absurd (omega arith)
watched longest (suc fuel) left now world st h enough = elim (Bool-cases (left == 0)) [
  | inl out ↦ (
    record { ended = now; stamp = st; repairs = [] },
    rw (sleep_watching, out) refl,
    record {
      whole = ground arith;
      exact = λ e. refl;
      soon = ground arith;
      within = tt;
      apart = tt;
      after_last = λ e. tt;
    },
  )
  | inr more ↦
      let r = round (world now) left now st in
      let some_left : 0 < left = ground arith in
      let (lasts, short) = round_lasts (world now) left now st some_left in
      let (s, e, b) = watched longest fuel (left - r.0) (now + r.0) world r.1 h (omega arith) in
      (
        record s { repairs = cons_if r.2 now s.repairs },
        rw (sleep_watching, more, e) refl,
        later-IsBounded longest left now r.0 (world now).took some_left short (h now) st (r.1, r.2)
            s (round-IsStep (world now) left now st) b,
      )
]

-- With more fuel than seconds the sleep ends. It lasts its time, and longer by one check at most; its
-- repairs are a minute apart from each other and from the last one before it, which is not in the future.
pub sleep_watching_ends :
    (longest fuel left now : ℕ) (world : ℕ → Moment) (st : Stamp)
    → ((t : ℕ) → (world t).took ≤ longest)
    → left < fuel
    → st.last ≤ now
    → (s : Slept) × (sleep_watching fuel world left now st ≡ some s)
      × (now + left ≤ s.ended)
      × (s.ended ≤ now + left + longest)
      × IsSpaced reauth_min_gap_sec s.repairs
      × All (λ t. st.last + reauth_min_gap_sec ≤ t) s.repairs
sleep_watching_ends longest fuel left now world st h enough past =
    let (s, e, b) = watched longest fuel left now world st h enough in
    (s, e, b.whole, b.soon, b.apart, b.after_last past)
