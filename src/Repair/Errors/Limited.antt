-- ===== src/Repair/Errors/Limited.antt =====
-- How often the operator is notified.
use stayturgid.Base.{
  ℕ, ◌+◌, ◌≤◌, ◌≡◌, inl, inr, true, ◌&&◌, Option, none, some, List, [], ◌∷◌, arith, All, ltb,
  Bool-cases,
}
use stayturgid.Repair.Errors.{
  error_rate_threshold, error_rate_cooldown_sec, Strptime, count_recent_watchdog_errors, Pass,
  Result, below, cleared, cooldown, notified, maybe_notify_error_rate,
}

-- What a run of passes returns, with their times.
unfoldable pub results : Strptime → List Pass → Option ℕ → List (ℕ × Result)
results strptime [] stamp = []
results strptime (p ∷ ps) stamp =
    let (r, stamp') = maybe_notify_error_rate strptime p stamp in
    (p.now, r) ∷ results strptime ps stamp'

-- Since the last notification, if there was one that has not been cleared, the cooldown has passed
-- before the next one.
abbrev pub IsLimited : Option ℕ → List (ℕ × Result) → Type 0
IsLimited last [] = Unit
IsLimited last ((t, below) ∷ rs) = IsLimited last rs
IsLimited last ((t, cooldown) ∷ rs) = IsLimited last rs
IsLimited last ((t, cleared) ∷ rs) = IsLimited none rs
IsLimited none ((t, notified) ∷ rs) = IsLimited (some t) rs
IsLimited (some l) ((t, notified) ∷ rs) = (l + error_rate_cooldown_sec ≤ t) × IsLimited (some t) rs

-- The stamp file can be removed and written.
abbrev pub IsWritable : Pass → Type 0
IsWritable p = (p.can_remove ≡ true) × (p.can_write ≡ true)

-- Between two notifications that nothing cleared there is the cooldown, counted from the stamp that was
-- there at first, if the stamp file can be removed and written.
pub results-IsLimited :
    (strptime : Strptime) (ps : List Pass) (stamp : Option ℕ)
    → All IsWritable ps
    → IsLimited stamp (results strptime ps stamp)
unfolding results maybe_notify_error_rate
results-IsLimited strptime [] stamp h = tt
results-IsLimited strptime (p ∷ ps) none h =
    elim (Bool-cases
      (ltb (count_recent_watchdog_errors strptime p.now p.log) error_rate_threshold)) [
        | inl few ↦ rw few (results-IsLimited strptime ps none h.1)
        | inr many ↦ elim (Bool-cases (ltb p.now (0 + error_rate_cooldown_sec))) [
          | inl early ↦ rw (many, early) (results-IsLimited strptime ps none h.1)
          | inr late ↦ rw (many, late, h.0.1) (results-IsLimited strptime ps (some p.now) h.1)
        ]
      ]
results-IsLimited strptime (p ∷ ps) (some l) h =
    elim (Bool-cases
      (ltb (count_recent_watchdog_errors strptime p.now p.log) error_rate_threshold)) [
        | inl few ↦ elim (Bool-cases (p.has_tapi && p.removal_ok)) [
          | inl gone ↦ rw (few, gone, h.0.0) (results-IsLimited strptime ps none h.1)
          | inr kept ↦ rw (few, kept) (results-IsLimited strptime ps (some l) h.1)
        ]
        | inr many ↦ elim (Bool-cases (ltb p.now (l + error_rate_cooldown_sec))) [
          | inl early ↦ rw (many, early) (results-IsLimited strptime ps (some l) h.1)
          | inr late ↦
              rw (many, late, h.0.1)
                (ground (arith, late), results-IsLimited strptime ps (some p.now) h.1)
        ]
      ]
