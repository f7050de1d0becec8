-- ===== src/ScreenControl/Session/Inputs.antt =====
-- The inputs of a session.
use stayturgid.Base.{
  ℕ, ◌≡◌, refl, ap, ◌∙◌, Bool, true, false, ◌||◌, not, zero, suc, List, [], ◌∷◌, arith, All, Text,
  Bool-cases, inl, inr, codes, sym,
}
use mathlib.Core.Path.{subst}
use mathlib.Core.HLevel.{⊥_prop}
use mathlib.Core.Logic.Or
use mathlib.Core.List.{Mem, not-mem-nil, eq-or-mem_of_mem-cons}
use stayturgid.ScreenControl.Device.{
  Link, Phone, next, call, ask, invert, pin, fix, upright, is_input_command, inversion_enabled,
  set_inversion, pin_rotation, apply_portrait_lock, mac_adb_shell, guarded_adb_shell,
}
use stayturgid.ScreenControl.Session.{Setup, World, Session, relight, prolong, keepalive, shell}

-- The commands that touch the screen or send text and keys: `input` alone, and the six subcommands of it
-- that the program uses or knows of, with any arguments.
pub data Touch : List Text → Type 0 where
  bare : Touch (codes "input" ∷ [])
  tapped : {args : List Text} → Touch (codes "input" ∷ codes "tap" ∷ args)
  swiped : {args : List Text} → Touch (codes "input" ∷ codes "swipe" ∷ args)
  dragged : {args : List Text} → Touch (codes "input" ∷ codes "draganddrop" ∷ args)
  typed : {args : List Text} → Touch (codes "input" ∷ codes "text" ∷ args)
  keyed : {args : List Text} → Touch (codes "input" ∷ codes "keyevent" ∷ args)
  rolled : {args : List Text} → Touch (codes "input" ∷ codes "roll" ∷ args)

Touch-is_input_command : {args : List Text} → Touch args → is_input_command args ≡ true
unfolding is_input_command
Touch-is_input_command bare = refl
Touch-is_input_command tapped = refl
Touch-is_input_command swiped = refl
Touch-is_input_command dragged = refl
Touch-is_input_command typed = refl
Touch-is_input_command keyed = refl
Touch-is_input_command rolled = refl

-- Every command that the guard knows as an input found the display inverted.
abbrev IsLit : Link → Type 0
IsLit l = All (λ e. (not (is_input_command e.0) || e.1) ≡ true) l.sent

IsLit-Mem :
    (args : List Text) (es : List (List Text × Bool))
    → is_input_command args ≡ true
    → All (λ e. (not (is_input_command e.0) || e.1) ≡ true) es
    → ¬ Mem (args, false) es
IsLit-Mem args [] input h m = not-mem-nil m
IsLit-Mem args (e ∷ es) input h m =
    Or.elim ⊥_prop (eq-or-mem_of_mem-cons m)
      (λ same. cc (subst (λ x. (not (is_input_command x.0) || x.1) ≡ true) (sym same) h.0, input))
      (IsLit-Mem args es input h.1)

-- What may happen during a session: a command of the program, a round of the keepalive thread, or
-- something that a human or another program does to the device.
pub data Event : Type 0 where
  command : List Text → (Phone → Phone) → Event
  tick : ℕ → Event
  outside : (Phone → Phone) → Event

abbrev pub happen : Setup → Session → Event → World → World
happen c s (command args effect) w = (shell s args effect w).1
happen c s (tick now) w = keepalive c now s w
happen c s (outside effect) w = record w { link = record w.link { phone = effect w.link.phone } }

unfoldable pub events : Setup → Session → List Event → World → World
events c s [] w = w
events c s (e ∷ es) w = events c s es (happen c s e w)

sent-call : (effect : Phone → Phone) (l : Link) → (call effect l).1.sent ≡ l.sent
unfolding call
sent-call effect l = refl

sent-inversion_enabled : (l : Link) → (inversion_enabled l).1.sent ≡ l.sent
unfolding inversion_enabled ask
sent-inversion_enabled l = refl

sent-set_inversion : (on : Bool) (l : Link) → (set_inversion on l).1.sent ≡ l.sent
unfolding set_inversion
sent-set_inversion on l = elim (Bool-cases (call (invert on) l).0) [
  | inl good ↦
      rw (set_inversion, good)
        (sent-inversion_enabled (call (invert on) l).1 ∙ sent-call (invert on) l)
  | inr bad ↦ rw (set_inversion, bad) (sent-call (invert on) l)
]

sent-pin_rotation : (n : ℕ) (l : Link) → (pin_rotation n l).sent ≡ l.sent
unfolding pin_rotation
sent-pin_rotation zero l = refl
sent-pin_rotation (suc n) l = elim (Bool-cases (call pin l).0) [
  | inl good ↦ rw (pin_rotation, good) (sent-call pin l)
  | inr bad ↦ rw (pin_rotation, bad) (sent-pin_rotation n (call pin l).1 ∙ sent-call pin l)
]

sent-apply_portrait_lock : (l : Link) → (apply_portrait_lock l).1.sent ≡ l.sent
unfolding apply_portrait_lock
sent-apply_portrait_lock l =
    let l1 = (call fix l).1 in
    sent-pin_rotation 3 (call upright l1).1 ∙ sent-call upright l1 ∙ sent-call fix l

mac_adb_shell-IsLit :
    (args : List Text) (effect : Phone → Phone) (l : Link)
    → (not (is_input_command args) || l.phone.inverted) ≡ true
    → IsLit l
    → IsLit (mac_adb_shell args effect l).1
unfolding mac_adb_shell
mac_adb_shell-IsLit args effect l lit h = elim (Bool-cases (next l.answers).0.done) [
  | inl reached ↦ rw (mac_adb_shell, reached) (lit, h)
  | inr lost ↦ rw (mac_adb_shell, lost) h
]

guarded_adb_shell-IsLit :
    (args : List Text) (effect : Phone → Phone) (l : Link)
    → IsLit l
    → IsLit (guarded_adb_shell true args effect l).1
unfolding guarded_adb_shell inversion_enabled ask
guarded_adb_shell-IsLit args effect l h = elim (Bool-cases (is_input_command args)) [
  | inr other ↦ rw (guarded_adb_shell, other) (mac_adb_shell-IsLit args effect l (rw other refl) h)
  | inl input ↦ elim (Bool-cases (inversion_enabled l).0) [
    | inr dark ↦ rw (guarded_adb_shell, input, dark) h
    | inl on ↦
        rw (guarded_adb_shell, input, on)
          (mac_adb_shell-IsLit args effect (inversion_enabled l).1 (ground arith) h)
  ]
]

sent-relight : (w : World) → (relight w).link.sent ≡ w.link.sent
unfolding relight
sent-relight w = elim (Bool-cases (inversion_enabled w.link).0) [
  | inl lit ↦ rw (relight, lit) (sent-inversion_enabled w.link)
  | inr dark ↦
      rw (relight, dark)
        (sent-set_inversion true (inversion_enabled w.link).1 ∙ sent-inversion_enabled w.link)
]

link-prolong : (c : Setup) (w : World) → (prolong c w).link ≡ w.link
link-prolong c w = elim (Bool-cases c.skip) [ inl skip ↦ rw skip refl | inr quiet ↦ rw quiet refl ]

keepalive-sent :
    (c : Setup) (now : ℕ) (s : Session) (w : World)
    → s.active ≡ true
    → (keepalive c now s w).link.sent ≡ w.link.sent
unfolding keepalive
keepalive-sent c now s w active =
    rw (keepalive, active)
      (sent-apply_portrait_lock (prolong c (relight w)).link
        ∙ ap (λ l. l.sent) (link-prolong c (relight w))
        ∙ sent-relight w)

happen-IsLit :
    (c : Setup) (s : Session) (e : Event) (w : World)
    → s.active ≡ true
    → IsLit w.link
    → IsLit (happen c s e w).link
unfolding shell
happen-IsLit c s (command args effect) w active h =
    rw active (guarded_adb_shell-IsLit args effect w.link h)
happen-IsLit c s (tick now) w active h = rw (keepalive-sent c now s w active) h
happen-IsLit c s (outside effect) w active h = h

events-IsLit :
    (c : Setup) (s : Session) (es : List Event) (w : World)
    → s.active ≡ true
    → IsLit w.link
    → IsLit (events c s es w).link
unfolding events
events-IsLit c s [] w active h = h
events-IsLit c s (e ∷ es) w active h =
    events-IsLit c s es (happen c s e w) active (happen-IsLit c s e w active h)

-- Whatever happens during a session, in any order, no `input` command without a subcommand, or with tap,
-- swipe, draganddrop, text, keyevent or roll, reaches the device through `shell` while the session is
-- active and the display is not inverted: among commands of the program, rounds of the keepalive thread,
-- changes of the device from outside, lost calls and wrong reports of adb. Nothing happens between the
-- test of a command and the command. Other subcommands of `input` are not meant: they are not tested.
pub inputs-IsLit :
    (c : Setup) (s : Session) (es : List Event) (w : World) (args : List Text)
    → s.active ≡ true
    → w.link.sent ≡ []
    → Touch args
    → ¬ Mem (args, false) (events c s es w).link.sent
inputs-IsLit c s es w args active fresh touch =
    IsLit-Mem args (events c s es w).link.sent (Touch-is_input_command touch)
      (events-IsLit c s es w active (rw fresh tt))
