-- ===== src/ScreenControl/Device.antt =====
-- The device behind adb, and what control/lib/screen_control.py reads and sets there. adb may lose a
-- call, and it may report what did not happen: each call consumes an answer that says both.
use stayturgid.Base.{
  ℕ, zero, suc, Bool, true, false, ◌&&◌, not, Option, none, some, List, [], ◌∷◌, Text, codes,
  is_empty, text_eq, member, strip, if◌then◌else◌,
}

-- The settings that the session touches.
pub record Phone : Type 0 where
  pub inverted : Bool
  pub ime : Text
  pub auto_rotate : Bool
  pub rotation : ℕ

-- Whether the call took effect, and whether adb returned 0.
pub record Answer : Type 0 where
  pub done : Bool
  pub good : Bool

-- The device, the answers to the calls to come, and for each command of `guarded_adb_shell` that reached
-- the device whether the display was inverted then, the last one first.
pub record Link : Type 0 where
  pub phone : Phone
  pub answers : List Answer
  pub sent : List (List Text × Bool)

-- After the last answer adb is gone.
abbrev pub next : List Answer → Answer × List Answer
next [] = (record { done = false; good = false }, [])
next (a ∷ rest) = (a, rest)

-- `input` and what follows it.
unfoldable pub is_input_command : List Text → Bool
is_input_command [] = false
is_input_command (cmd ∷ []) = text_eq cmd (codes "input")
is_input_command (cmd ∷ sub ∷ args) =
    text_eq cmd (codes "input")
    && member sub (
        codes "tap"
        ∷ codes "swipe"
        ∷ codes "draganddrop"
        ∷ codes "text"
        ∷ codes "keyevent"
        ∷ codes "roll"
        ∷ [])

-- `mac_adb_shell` of a command that is no input, with what the command does.
unfoldable pub call : (Phone → Phone) → Link → Bool × Link
call effect l =
    let (a, rest) = next l.answers in
    (a.good, record l { phone = if a.done then effect l.phone else l.phone; answers = rest })

-- One that reads.
unfoldable pub ask : Link → Bool × Link
ask l = let (a, rest) = next l.answers in (a.good, record l { answers = rest })

-- `inversion_enabled`: whether the setting reads 1.
unfoldable pub inversion_enabled : Link → Bool × Link
inversion_enabled l = let (good, l1) = ask l in (good && l.phone.inverted, l1)

abbrev pub invert : Bool → Phone → Phone
invert on p = record p { inverted = on }

-- `==` of two tests.
abbrev pub agree : Bool → Bool → Bool
agree a b = if a then b else not b

unfoldable pub set_inversion : Bool → Link → Bool × Link
set_inversion on l =
    let (good, l1) = call (invert on) l in
    let (now, l2) = inversion_enabled l1 in if good then (agree now on, l2) else (false, l1)

abbrev pub fix : Phone → Phone
fix p = record p { auto_rotate = false }

abbrev pub upright : Phone → Phone
upright p = record p { rotation = 0 }

abbrev pub pin : Phone → Phone
pin p = record p { auto_rotate = false; rotation = 0 }

-- The spellings of the window manager's command, up to one that works.
unfoldable pub pin_rotation : ℕ → Link → Link
pin_rotation zero l = l
pin_rotation (suc n) l =
    let (good, l1) = call pin l in let rest = pin_rotation n l1 in if good then l1 else rest

unfoldable pub apply_portrait_lock : Link → Bool × Link
apply_portrait_lock l =
    let (a, l1) = call fix l in let (b, l2) = call upright l1 in (a && b, pin_rotation 3 l2)

abbrev pub ime_of : Text → Option Text
ime_of t = if is_empty t then none else if text_eq t (codes "null") then none else some t

unfoldable pub get_default_ime : Link → Option Text × Link
get_default_ime l =
    let (good, l1) = ask l in (if good then ime_of (strip l.phone.ime) else none, l1)

abbrev pub is_ime : Option Text → Text → Bool
is_ime none t = false
is_ime (some s) t = text_eq s t

unfoldable pub set_default_ime : Text → Link → Bool × Link
set_default_ime ime l =
    let (enabled, l1) = ask l in
    let (good, l2) = call (λ p. record p { ime = ime }) l1 in
    let (now, l3) = get_default_ime l2 in
    if is_empty ime
    then (false, l)
    else if text_eq ime (codes "null")
    then (false, l)
    else if good
    then (is_ime now ime, l3)
    else (false, l2)

abbrev pub adb_keyboard : Text
adb_keyboard = codes "com.github.uiautomator/.AdbKeyboard"

-- Another keyboard than the automation's is left alone.
abbrev pub is_foreign : Option Text → Bool
is_foreign none = false
is_foreign (some cur) = not (text_eq cur adb_keyboard)

unfoldable pub restore_default_ime : Option Text → Link → Bool × Link
restore_default_ime none l = (true, l)
restore_default_ime (some saved) l =
    let (cur, l1) = get_default_ime l in
    let set = set_default_ime saved l1 in
    if is_ime cur saved then (true, l1) else if is_foreign cur then (true, l1) else set

-- `mac_adb_shell` of any command.
unfoldable pub mac_adb_shell : List Text → (Phone → Phone) → Link → Bool × Link
mac_adb_shell args effect l =
    let (a, rest) = next l.answers in
    (
      a.good,
      record {
        phone = if a.done then effect l.phone else l.phone;
        answers = rest;
        sent = if a.done then (args, l.phone.inverted) ∷ l.sent else l.sent;
      },
    )

-- `none` is `raise ScreenControlError`.
unfoldable pub guarded_adb_shell : Bool → List Text → (Phone → Phone) → Link → Option Bool × Link
guarded_adb_shell active args effect l =
    let (on, l1) = inversion_enabled l in
    let (good, l2) = mac_adb_shell args effect l1 in
    let (bare, l3) = mac_adb_shell args effect l in
    if active && is_input_command args
    then (if on then (some good, l2) else (none, l1))
    else (some bare, l3)
