-- ===== src/BootLoop/Adb/Waiting.antt =====
-- That the search for a transport leaves a pending dialog alone.
use stayturgid.Base.{
  ℕ, zero, suc, ◌+◌, ◌≤◌, ◌<◌, ◌≡◌, refl, inl, inr, ◌⊎◌, Bool, true, false, arith, Bool-cases, ◌==◌,
  ==_iff, if◌then◌else◌, pos, eqℤ, sym,
}
use mathlib.Core.Path.{subst}
use stayturgid.BootLoop.Adb.{
  Look, AdbState, ready, unauthorised, unreachable, localhost_adb_state, Rish, Transport, local_adb,
  recovered, no_key, unavailable, Found, poll, has_shell, shell_transport,
}

AdbState-cases : (s : AdbState) → (s ≡ ready) ⊎ (s ≡ unauthorised) ⊎ (s ≡ unreachable)
AdbState-cases ready = inl refl
AdbState-cases unauthorised = inr (inl refl)
AdbState-cases unreachable = inr (inr refl)

-- The state that a transport goes with.
abbrev pub state_of : Transport → AdbState
state_of local_adb = ready
state_of recovered = ready
state_of no_key = unauthorised
state_of unavailable = unreachable

-- The search ends with its first look that finds the device or a dialog, and says which it found. It
-- looks at most so often, and every look before the last one found nothing.
pub record IsSearch (look : ℕ → Look) (first limit : ℕ) (f : Found) : Type 0 where
  pub last : ℕ
  pub counted : f.looks ≡ last + 1
  pub few : last < limit
  pub finds : localhost_adb_state (look last) ≡ state_of f.transport
  pub before : (i : ℕ) → first ≤ i → i < last → localhost_adb_state (look i) ≡ unreachable

-- A search that ends with its first look.
at_once :
    (look : ℕ → Look) (j limit : ℕ) (f : Found)
    → f.looks ≡ j + 1
    → j < limit
    → localhost_adb_state (look j) ≡ state_of f.transport
    → IsSearch look j limit f
at_once look j limit f counted few finds = record {
  last = j;
  counted = counted;
  few = few;
  finds = finds;
  before = λ i a b. absurd (omega arith);
}

-- A search whose first look found nothing.
one_more :
    (look : ℕ → Look) (j limit : ℕ) (f : Found)
    → localhost_adb_state (look j) ≡ unreachable
    → IsSearch look (j + 1) limit f
    → IsSearch look j limit f
one_more look j limit f e rest = record {
  last = rest.last;
  counted = rest.counted;
  few = rest.few;
  finds = rest.finds;
  before = λ i a b. elim (Bool-cases (i == j)) [
    | inl same ↦
        subst (λ k. localhost_adb_state (look k) ≡ unreachable) (sym ((==_iff i j).0 same)) e
    | inr other ↦ rest.before i (ground arith) b
  ];
}

poll-IsSearch :
    (n j limit : ℕ) (look : ℕ → Look)
    → n + j < limit
    → localhost_adb_state (look j) ≡ unreachable
    → IsSearch look j limit (poll n look (j + 1))
unfolding poll
poll-IsSearch zero j limit look few e =
    at_once look j limit (poll zero look (j + 1)) refl (omega arith) e
poll-IsSearch (suc n) j limit look few e =
    one_more look j limit (poll (suc n) look (j + 1)) e
      (elim (AdbState-cases (localhost_adb_state (look (j + 1)))) [
        | inl now ↦ rw (poll, now) (at_once look (j + 1) limit _ refl (omega arith) now)
        | inr (inl now) ↦ rw (poll, now) (at_once look (j + 1) limit _ refl (omega arith) now)
        | inr (inr later) ↦
            rw (poll, later) (poll-IsSearch n (j + 1) limit look (omega arith) later)
      ])

after_nothing :
    (shell restart : Bool) (look : ℕ → Look)
    → localhost_adb_state (look 0) ≡ unreachable
    → IsSearch look 0 9 (
        if shell
        then if restart
          then poll 8 look 1
          else record { transport = unavailable; looks = 1; restarted = true }
        else record { transport = unavailable; looks = 1; restarted = false })
after_nothing true true look e = poll-IsSearch 8 0 9 look (omega arith) e
after_nothing true false look e = at_once look 0 9 _ refl (omega arith) e
after_nothing false restart look e = at_once look 0 9 _ refl (omega arith) e

-- The search looks nine times at most and ends with the first look that finds the device or a dialog. It
-- has adbd restarted only if its first look found neither, so never under a dialog, and gives a
-- transport only if its last look found the device.
pub shell_transport-IsSearch :
    (look : ℕ → Look) (rish : Rish)
    → IsSearch look 0 9 (shell_transport look rish)
      × (((shell_transport look rish).restarted ≡ false)
          ⊎ (localhost_adb_state (look 0) ≡ unreachable))
unfolding shell_transport
shell_transport-IsSearch look rish = elim (AdbState-cases (localhost_adb_state (look 0))) [
  | inl e ↦ rw (shell_transport, e) (at_once look 0 9 _ refl (omega arith) e, inl refl)
  | inr (inl e) ↦ rw (shell_transport, e) (at_once look 0 9 _ refl (omega arith) e, inl refl)
  | inr (inr e) ↦ (
    rw (shell_transport, e) (after_nothing (has_shell rish) (eqℤ rish.restart_rc (pos 0)) look e),
    inr e,
  )
]
