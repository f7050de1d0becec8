-- ===== src/ScreenControl/Session/Ends.antt =====
-- How a session ends.
use mathlib.Core.Path.{subst}
use stayturgid.Base.{
  ◌≡◌, All, refl, sym, ap, ◌∙◌, true, false, Option, none, some, arith, Text, if◌then◌else◌,
  Bool-cases, inl, inr,
}
use stayturgid.Lease.Key.{lease_path}
use stayturgid.Lease.Store.{read}
use stayturgid.Lease.Store.Laws.{OfLease}
use stayturgid.Lease.Release.Clears.{IsOther, release-IsOther}
use stayturgid.ScreenControl.Device.{
  Link, next, call, ask, invert, is_ime, is_foreign, set_default_ime, restore_default_ime,
  inversion_enabled, set_inversion, get_default_ime,
}
use stayturgid.ScreenControl.Session.{off, Setup, World, Session, ssh_presence, freed, closed, exit}
use stayturgid.ScreenControl.Session.Holding.{Held, free-read}

off_files : (c : Setup) (w : World) → (if c.skip then w else (ssh_presence off w).1).files ≡ w.files
off_files c w = elim (Bool-cases c.skip) [ inl skip ↦ rw skip refl | inr shown ↦ rw shown refl ]

-- Every lease document of the directory names other devices, or is of another project or session.
abbrev pub IsFreed : Setup → Session → World → Type 0
IsFreed c s w = All (OfLease (IsOther c.env s.lease_session c.host)) w.files

closed_ends :
    (c : Setup) (s : Session) (w : World)
    → s.lease_acquired ≡ true
    → Held c s.lease_session w.files
    → let r = closed c s w in
      (r.0.active ≡ false)
      × (read (lease_path c.host) r.1.files ≡ none)
      × IsFreed c s r.1
      × (exit c r.0 r.1 ≡ r)
unfolding closed exit
closed_ends c s w holds held = (
  refl,
  rw (closed, holds, off_files c w) (free-read c s.lease_session w held),
  rw (closed, holds, off_files c w)
      (release-IsOther c.env c.host s.lease_session w.files held.ordered),
  refl,
)

-- The end of a session that holds the lease ends it: the session is inactive, no lease document is left
-- that names the device, under whichever alias, and is of its project and session, the device's own key
-- file is gone, and a second end does nothing.
pub exit_ends :
    (c : Setup) (s : Session) (w : World)
    → s.active ≡ true
    → s.lease_acquired ≡ true
    → Held c s.lease_session w.files
    → let (s', w') = exit c s w in
      (s'.active ≡ false)
      × (read (lease_path c.host) w'.files ≡ none)
      × IsFreed c s w'
      × (exit c s' w' ≡ (s', w'))
unfolding exit
exit_ends c s w active holds held =
    let e : exit c s w ≡ closed c s w = rw (exit, active) refl in
    subst
      (λ r.
        (r.0.active ≡ false)
        × (read (lease_path c.host) r.1.files ≡ none)
        × IsFreed c s r.1
        × (exit c r.0 r.1 ≡ r))
      (sym e) (closed_ends c s w holds held)

call-invert :
    (l : Link) → (next l.answers).0.done ≡ true → (call (invert false) l).1.phone.inverted ≡ false
unfolding call
call-invert l h = rw h refl

set_inversion-dark :
    (l : Link) → (next l.answers).0.done ≡ true → (set_inversion false l).1.phone.inverted ≡ false
unfolding set_inversion inversion_enabled ask
set_inversion-dark l h =
    let off_now : (call (invert false) l).1.phone.inverted ≡ false = call-invert l h in
    elim (Bool-cases (call (invert false) l).0) [
      | inl good ↦ rw (set_inversion, good) off_now
      | inr bad ↦ rw (set_inversion, bad) off_now
    ]

inverted-set_default_ime :
    (ime : Text) (l : Link) → (set_default_ime ime l).1.phone.inverted ≡ l.phone.inverted
unfolding set_default_ime get_default_ime call ask
inverted-set_default_ime ime l = ground arith

inverted-restore_default_ime :
    (saved : Option Text) (l : Link)
    → (restore_default_ime saved l).1.phone.inverted ≡ l.phone.inverted
unfolding restore_default_ime get_default_ime ask
inverted-restore_default_ime none l = refl
inverted-restore_default_ime (some saved) l =
    let cur = (get_default_ime l).0 in
    elim (Bool-cases (is_ime cur saved)) [
      | inl there ↦ rw (restore_default_ime, there) refl
      | inr other ↦ elim (Bool-cases (is_foreign cur)) [
        | inl foreign ↦ rw (restore_default_ime, other, foreign) refl
        | inr automation ↦
            rw (restore_default_ime, other, automation)
              (inverted-set_default_ime saved (get_default_ime l).1)
      ]
    ]

link-off : (c : Setup) (w : World) → (if c.skip then w else (ssh_presence off w).1).link ≡ w.link
link-off c w = elim (Bool-cases c.skip) [ inl skip ↦ rw skip refl | inr shown ↦ rw shown refl ]

link-freed : (c : Setup) (s : Session) (w : World) → (freed c s w).link ≡ w.link
link-freed c s w = elim (Bool-cases s.lease_acquired) [
  | inl held ↦ rw held refl
  | inr gone ↦ rw gone refl
]

-- The end of an active session leaves the display not inverted if the first call
-- of adb takes effect, whatever becomes of the later ones and of the keyboard.
pub exit_dark :
    (c : Setup) (s : Session) (w : World)
    → s.active ≡ true
    → (next w.link.answers).0.done ≡ true
    → (exit c s w).1.link.phone.inverted ≡ false
unfolding exit closed
exit_dark c s w active done =
    let w1 = if c.skip then w else (ssh_presence off w).1 in
    let l2 = (set_inversion false w1.link).1 in
    let l3 = (restore_default_ime s.saved_ime l2).1 in
    rw (exit, active)
      (ap (λ k. k.phone.inverted) (link-freed c s (record w1 { link = l3 }))
        ∙ inverted-restore_default_ime s.saved_ime l2
        ∙ set_inversion-dark w1.link (rw (link-off c w) done))
