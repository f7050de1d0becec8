-- ===== src/ScreenControl/Session.antt =====
-- `ScreenControlSession` of control/lib/screen_control.py.
pub mod Inputs
pub mod Holding
pub mod Begins
pub mod Ends
use stayturgid.Base.{
  ℕ, Bool, true, false, ◌&&◌, not, Option, none, some, List, [], ◌∷◌, ◌++◌, Text, ◌==◌,
  if◌then◌else◌,
}
use stayturgid.Lease.Env.{Env, project_id}
use stayturgid.Lease.Store.{Lease, Files, session_of}
use stayturgid.Lease.Write.{Request}
use stayturgid.Lease.Acquire.{Outcome, acquired, conflict, Poll, acquire, heartbeat}
use stayturgid.Lease.Release.{release}
use stayturgid.ScreenControl.Device.{
  Link, Phone, inversion_enabled, set_inversion, apply_portrait_lock, get_default_ime,
  restore_default_ime, guarded_adb_shell,
}

-- What `ssh_presence` is called for.
pub data Presence : Type 0 where
  request_screen on off guard : Presence

-- What a session was made with, what `acquire` takes of the environment (`force`, `wait`), and what
-- the clearance of the screen does.
pub record Setup : Type 0 where
  pub env : Env
  pub host : Text
  pub aliases : List Text
  pub agent : Text
  pub purpose : Text
  pub force : Bool
  pub wait : ℕ
  pub skip : Bool
  pub skip_request : Bool
  pub clear : Link → Link

-- The device, the exit codes of the ssh calls to come, those calls with the exit code each had, and
-- the lease files.
pub record World : Type 0 where
  pub link : Link
  pub codes : List ℕ
  pub asked : List (Presence × ℕ)
  pub files : Files

pub record Session : Type 0 where
  pub active : Bool
  pub saved_ime : Option Text
  pub lease_session : Text
  pub lease_acquired : Bool

-- `ScreenControlError`, by its cause.
pub data Why : Type 0 where
  busy : Lease → Why
  denied not_inverted : Why
  request_failed presence_failed : ℕ → Why

pub data Entry : Type 0 where
  entered : Session → World → Entry
  refused : Why → World → Entry

-- With no exit code left, ssh cannot be run.
abbrev next_code : List ℕ → ℕ × List ℕ
next_code [] = (127, [])
next_code (c ∷ cs) = (c, cs)

abbrev pub ssh_presence : Presence → World → ℕ × World
ssh_presence action w =
    let (c, rest) = next_code w.codes in
    (c, record w { codes = rest; asked = (action, c) ∷ w.asked })

-- The consent of the human.
unfoldable pub ask_consent : Setup → World → Option Why × World
ask_consent c w =
    let (code, w1) = ssh_presence request_screen w in
    if c.skip
    then (none, w)
    else if c.skip_request
    then (none, w)
    else if code == 75
    then (some denied, w1)
    else if code == 0
    then (none, w1)
    else (some (request_failed code), w1)

unfoldable pub turn_on : World → Option Why × World
turn_on w =
    let (good, l) = set_inversion true w.link in
    (if good then none else some not_inverted, record w { link = l })

unfoldable pub show_presence : Setup → World → Option Why × World
show_presence c w =
    let (code, w1) = ssh_presence on w in
    let dark = record w1 { link = (set_inversion false w1.link).1 } in
    if c.skip
    then (none, w)
    else if code == 0
    then (none, w1)
    else (some (presence_failed code), dark)

-- The rest of the entry, unless an error was raised.
abbrev pub or_raise : Option Why × World → (World → Entry) → Entry
or_raise (some why, w) rest = refused why w
or_raise (none, w) rest = rest w

-- `_enter_session`, with the session of the lease.
unfoldable pub enter_session : Setup → Text → World → Entry
enter_session c session w =
    let l = c.clear (apply_portrait_lock w.link).1 in
    let (ime, l1) = get_default_ime l in
    or_raise (ask_consent c (record w { link = l1 })) (λ w1. or_raise (turn_on w1) (λ w2.
      or_raise (show_presence c w2) (λ w3.
        entered
          (record {
            active = true;
            saved_ime = ime;
            lease_session = session;
            lease_acquired = true;
          })
          w3)))

-- `_release_cross_project_lease`
abbrev pub free : Setup → Text → World → World
free c session w = record w { files = (release c.env c.host session false w.files).1 }

abbrev pub or_free : Setup → Text → Entry → Entry
or_free c session (entered s w) = entered s w
or_free c session (refused why w) = refused why (free c session w)

abbrev pub request_of : Setup → Request
request_of c = record {
  device = c.host;
  device_ids = c.aliases;
  purpose = c.purpose;
  agent = c.agent;
  project = project_id c.env;
  session_id = [];
  ttl_sec = 0;
}

abbrev pub with_lease : Setup → World → Outcome → Entry
with_lease c w (conflict l) = refused (busy l) w
with_lease c w (acquired l files) =
    or_free c (session_of l.holder)
      (enter_session c (session_of l.holder) (record w { files = files }))

-- `__enter__` at a time, with what each attempt at the lease finds. `none` still waits for the lease.
unfoldable pub enter : Setup → ℕ → List Poll → World → Option Entry
enter c started polls w = elim (acquire c.env (request_of c) c.force c.wait started polls) [
  | none ↦ none
  | some o ↦ some (with_lease c w o)
]

abbrev pub freed : Setup → Session → World → World
freed c s w = if s.lease_acquired then free c s.lease_session w else w

-- What `__exit__` does with an active session.
unfoldable pub closed : Setup → Session → World → Session × World
closed c s w =
    let w1 = if c.skip then w else (ssh_presence off w).1 in
    let l2 = (set_inversion false w1.link).1 in
    let l3 = (restore_default_ime s.saved_ime l2).1 in
    (record s { active = false; lease_acquired = false }, freed c s (record w1 { link = l3 }))

-- `__exit__`
unfoldable pub exit : Setup → Session → World → Session × World
exit c s w = if s.active then closed c s w else (s, w)

-- The display is inverted again if it is not.
unfoldable pub relight : World → World
relight w =
    let (lit, l1) = inversion_enabled w.link in
    let l2 = (set_inversion true l1).1 in record w { link = if lit then l1 else l2 }

abbrev pub prolong : Setup → World → World
prolong c w = if c.skip then w else (ssh_presence guard w).1

abbrev pub beat : Setup → ℕ → Session → World → World
beat c now s w =
    let files' = (heartbeat c.env c.host s.lease_session 0 now w.files).1 in
    record w { files = if s.lease_acquired then files' else w.files }

abbrev pub straighten : World → World
straighten w = record w { link = (apply_portrait_lock w.link).1 }

-- A round of `_keepalive_loop` at a time in milliseconds.
unfoldable pub keepalive : Setup → ℕ → Session → World → World
keepalive c now s w =
    let round = straighten (beat c now s (prolong c (relight w))) in if s.active then round else w

-- `shell`: what is sent to the device, and what it does there.
unfoldable pub shell : Session → List Text → (Phone → Phone) → World → Option Bool × World
shell s args effect w =
    let (r, l) = guarded_adb_shell s.active args effect w.link in (r, record w { link = l })
