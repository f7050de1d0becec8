-- ===== src/ScreenControl/Session/Begins.antt =====
-- How a session begins.
use mathlib.Core.Path.{subst}
use stayturgid.Base.{
  ◌+◌, ℕ, ◌≡◌, refl, ap, ◌∙◌, Bool, true, false, none, some, List, ◌∷◌, arith, All, Text, is_empty,
  strip, ◌==◌, ==_iff, Bool-cases, Option-cases, inl, inr,
}
use stayturgid.Lease.Key.{lease_path}
use stayturgid.Lease.Store.{Files, read, session_of}
use stayturgid.Lease.Store.Laws.{IsOrdered}
use stayturgid.Lease.Acquire.{Outcome, acquired, conflict, Poll, acquire}
use stayturgid.ScreenControl.Device.{
  Link, call, ask, invert, inversion_enabled, set_inversion, apply_portrait_lock, get_default_ime,
}
use stayturgid.ScreenControl.Session.{
  request_screen, on, Setup, World, Session, Why, busy, Entry, entered, refused, ssh_presence,
  ask_consent, turn_on, show_presence, enter_session, or_free, request_of, with_lease, enter,
}
use stayturgid.ScreenControl.Session.Holding.{Held, free-read, attempts-acquired, acquired-Held}

-- A switch that reports success has switched the display on.
set_inversion-lit :
    (l : Link) → (set_inversion true l).0 ≡ true → (set_inversion true l).1.phone.inverted ≡ true
unfolding set_inversion inversion_enabled ask
set_inversion-lit l h = elim (Bool-cases (call (invert true) l).0) [
  | inr bad ↦ cc (rw (set_inversion, bad) at h)
  | inl good ↦ rw (set_inversion, good) (ground (arith, rw (set_inversion, good) at h))
]

-- What each step of the entry leaves.
consent_files : (c : Setup) (w : World) → (ask_consent c w).1.files ≡ w.files
unfolding ask_consent
consent_files c w = ground arith

turn_on_files : (w : World) → (turn_on w).1.files ≡ w.files
unfolding turn_on
turn_on_files w = refl

turn_on_asked : (w : World) → (turn_on w).1.asked ≡ w.asked
unfolding turn_on
turn_on_asked w = refl

turn_on-lit : (w : World) → (turn_on w).0 ≡ none → (turn_on w).1.link.phone.inverted ≡ true
unfolding turn_on
turn_on-lit w h = elim (Bool-cases (set_inversion true w.link).0) [
  | inl good ↦ set_inversion-lit w.link good
  | inr bad ↦ cc (rw (turn_on, bad) at h)
]

presence_files : (c : Setup) (w : World) → (show_presence c w).1.files ≡ w.files
unfolding show_presence
presence_files c w = ground arith

presence_link :
    (c : Setup) (w : World) → (show_presence c w).0 ≡ none → (show_presence c w).1.link ≡ w.link
unfolding show_presence
presence_link c w h = ground arith

consent_asked :
    (c : Setup) (w : World)
    → c.skip ≡ false
    → c.skip_request ≡ false
    → (ask_consent c w).0 ≡ none
    → (ask_consent c w).1.asked ≡ (request_screen, 0) ∷ w.asked
unfolding ask_consent
consent_asked c w e f h =
    let code = (ssh_presence request_screen w).0 in
    elim (Bool-cases (code == 75)) [
      | inl raised ↦ cc (rw (ask_consent, e, f, raised) at h)
      | inr other ↦ elim (Bool-cases (code == 0)) [
        | inl agreed ↦
            rw (ask_consent, e, f, other, agreed)
              (ap (λ n. (request_screen, n) ∷ w.asked) ((==_iff code 0).0 agreed))
        | inr failed ↦ cc (rw (ask_consent, e, f, other, failed) at h)
      ]
    ]

presence_asked :
    (c : Setup) (w : World)
    → c.skip ≡ false
    → (show_presence c w).0 ≡ none
    → (show_presence c w).1.asked ≡ (on, 0) ∷ w.asked
unfolding show_presence
presence_asked c w e h =
    let code = (ssh_presence on w).0 in
    elim (Bool-cases (code == 0)) [
      | inl agreed ↦
          rw (show_presence, e, agreed) (ap (λ n. (on, n) ∷ w.asked) ((==_iff code 0).0 agreed))
      | inr failed ↦ cc (rw (show_presence, e, failed) at h)
    ]

-- What an entry without an error has done.
record Controls (c : Setup) (session : Text) (w : World) (s : Session) (w' : World) : Type 0 where
  active : s.active ≡ true
  owns : s.lease_session ≡ session
  holds : s.lease_acquired ≡ true
  lit : w'.link.phone.inverted ≡ true
  kept : w'.files ≡ w.files
  asked :
      c.skip ≡ false → c.skip_request ≡ false → w'.asked ≡ (on, 0) ∷ (request_screen, 0) ∷ w.asked

-- What an entry does, by its result.
abbrev pub is_busy : Why → Bool
is_busy (busy l) = true
is_busy other = false

not_busy-consent :
    (c : Setup) (w : World) {why : Why} → (ask_consent c w).0 ≡ some why → is_busy why ≡ false
unfolding ask_consent
not_busy-consent c w {why} h = ground arith

not_busy-turn_on : (w : World) {why : Why} → (turn_on w).0 ≡ some why → is_busy why ≡ false
unfolding turn_on
not_busy-turn_on w {why} h = ground arith

not_busy-presence :
    (c : Setup) (w : World) {why : Why} → (show_presence c w).0 ≡ some why → is_busy why ≡ false
unfolding show_presence
not_busy-presence c w {why} h = ground arith

abbrev Turns : Setup → Text → World → Entry → Type 0
Turns c session w (entered s w') = Controls c session w s w'
Turns c session w (refused why w') = (w'.files ≡ w.files) × (is_busy why ≡ false)

enter_session-Turns :
    (c : Setup) (session : Text) (w : World) → Turns c session w (enter_session c session w)
unfolding enter_session
enter_session-Turns c session w =
    let l = c.clear (apply_portrait_lock w.link).1 in
    let w0 = record w { link = (get_default_ime l).1 } in
    let w1 = (ask_consent c w0).1 in
    let w2 = (turn_on w1).1 in
    let w3 = (show_presence c w2).1 in
    elim (Option-cases (ask_consent c w0).0) [
      | inr (why, raised) ↦
          rw (enter_session, raised) (consent_files c w0, not_busy-consent c w0 raised)
      | inl agreed ↦ elim (Option-cases (turn_on w1).0) [
        | inr (why, raised) ↦
            rw (enter_session, agreed, raised)
              (turn_on_files w1 ∙ consent_files c w0, not_busy-turn_on w1 raised)
        | inl lit ↦ elim (Option-cases (show_presence c w2).0) [
          | inr (why, raised) ↦
              rw (enter_session, agreed, lit, raised)
                (
                  presence_files c w2 ∙ turn_on_files w1 ∙ consent_files c w0,
                  not_busy-presence c w2 raised,
                )
          | inl shown ↦
              rw (enter_session, agreed, lit, shown)
                (record {
                  active = refl;
                  owns = refl;
                  holds = refl;
                  lit = ap (λ k. k.phone.inverted) (presence_link c w2 shown) ∙ turn_on-lit w1 lit;
                  kept = presence_files c w2 ∙ turn_on_files w1 ∙ consent_files c w0;
                  asked = λ e f.
                      presence_asked c w2 e shown
                      ∙ ap (◌∷◌ (on, 0)) (turn_on_asked w1 ∙ consent_asked c w0 e f agreed);
                })
        ]
      ]
    ]

-- What a session that was entered has: the display inverted, the lease of the device, and, unless
-- the setup skips it, the consent of the human and the presence shown after it.
pub record Granted (c : Setup) (w : World) (s : Session) (w' : World) : Type 0 where
  pub active : s.active ≡ true
  pub holds : s.lease_acquired ≡ true
  pub lit : w'.link.phone.inverted ≡ true
  pub held : Held c s.lease_session w'.files
  pub asked :
      c.skip ≡ false → c.skip_request ≡ false → w'.asked ≡ (on, 0) ∷ (request_screen, 0) ∷ w.asked

-- What an entry promises of its result.
abbrev Promises : Setup → World → Entry → Type 0
Promises c w (entered s w') = Granted c w s w'
Promises c w (refused why w') = is_busy why ≡ false → read (lease_path c.host) w'.files ≡ none

or_free-Promises :
    (c : Setup) (session : Text) (w : World) (files : Files) (e : Entry)
    → Held c session files
    → Turns c session (record w { files = files }) e
    → Promises c w (or_free c session e)
or_free-Promises c session w files (entered s w') held turns = record {
  active = turns.active;
  holds = turns.holds;
  lit = turns.lit;
  held = rw (turns.owns, turns.kept) held;
  asked = turns.asked;
}
or_free-Promises c session w files (refused why w') held turns =
    λ other. free-read c session w' (rw turns.0 held)

with_lease-Promises :
    (c : Setup) (started : ℕ) (polls : List Poll) (w : World) (o : Outcome)
    → is_empty c.host ≡ false
    → strip (c.env.fresh_id) ≡ c.env.fresh_id
    → All (λ p. IsOrdered (p.1)) polls
    → acquire c.env (request_of c) c.force c.wait started polls ≡ some o
    → Promises c w (with_lease c w o)
unfolding acquire
with_lease-Promises c started polls w (conflict l) named clean o h = λ other. cc
with_lease-Promises c started polls w (acquired lease files) named clean o h =
    let session = session_of lease.holder in
    let (now, s, so, done) =
      attempts-acquired c.env (request_of c) c.force (started + c.wait) polls o h in
    or_free-Promises c session w files (enter_session c session (record w { files = files }))
      (acquired-Held c (started + c.wait) now s named clean so done)
      (enter_session-Turns c session (record w { files = files }))

enter-Promises :
    (c : Setup) (started : ℕ) (polls : List Poll) (w : World) (e : Entry)
    → is_empty c.host ≡ false
    → strip (c.env.fresh_id) ≡ c.env.fresh_id
    → All (λ p. IsOrdered (p.1)) polls
    → enter c started polls w ≡ some e
    → Promises c w e
unfolding enter
enter-Promises c started polls w e named clean o h =
    elim (Option-cases (acquire c.env (request_of c) c.force c.wait started polls)) [
      | inl waits ↦ cc (rw (enter, waits) at h)
      | inr (r, ends) ↦
          let same : with_lease c w r ≡ e = cc (rw (enter, ends) at h) in
          subst (Promises c w) same (with_lease-Promises c started polls w r named clean o ends)
    ]

-- A session that is entered holds the device's lease and has the display inverted, however adb and
-- ssh answer, and the human's consent was asked first and given, then the presence shown, unless the
-- setup skips them. The lease directory is in order at each attempt, the host has a name, and a
-- fresh session id has no blanks around it.
pub enter-Granted :
    (c : Setup) (started : ℕ) (polls : List Poll) (w : World) (s : Session) (w' : World)
    → is_empty c.host ≡ false
    → strip (c.env.fresh_id) ≡ c.env.fresh_id
    → All (λ p. IsOrdered (p.1)) polls
    → enter c started polls w ≡ some (entered s w')
    → Granted c w s w'
enter-Granted c started polls w s w' named clean o h =
    enter-Promises c started polls w (entered s w') named clean o h

-- An entry that fails after it got the lease leaves no lease of the device behind, whichever step
-- failed: consent, inversion or presence.
pub refused_frees :
    (c : Setup) (started : ℕ) (polls : List Poll) (w : World) (why : Why) (w' : World)
    → is_empty c.host ≡ false
    → strip (c.env.fresh_id) ≡ c.env.fresh_id
    → All (λ p. IsOrdered (p.1)) polls
    → enter c started polls w ≡ some (refused why w')
    → is_busy why ≡ false
    → read (lease_path c.host) w'.files ≡ none
refused_frees c started polls w why w' named clean o h other =
    enter-Promises c started polls w (refused why w') named clean o h other
