-- ===== src/ScreenControl/Examples.antt =====
-- Sessions on one phone.
use stayturgid.Base.{ℕ, ◌≡◌, refl, true, false, none, some, List, [], ◌∷◌, codes, Text}
use mathlib.Core.List.{Mem}
use stayturgid.Lease.Key.{lease_path}
use stayturgid.Lease.Env.{Env}
use stayturgid.Lease.Store.{
  Lease, Files, read, find_active_lease, all_spellings, list_leases, first_match,
}
use stayturgid.Lease.Write.{build_lease, write_lease_all_keys}
use stayturgid.Lease.Acquire.{Outcome, Poll, settled, can_write, attempt, attempts, acquire}
use stayturgid.Lease.Release.{release}
use stayturgid.ScreenControl.Device.{
  Phone, Answer, call, ask, inversion_enabled, set_inversion, pin_rotation, apply_portrait_lock,
  get_default_ime,
}
use stayturgid.ScreenControl.Session.{
  Presence, Setup, World, Session, denied, entered, refused, request_of, ask_consent, turn_on,
  show_presence, enter_session, enter, exit,
}
use stayturgid.ScreenControl.Session.Inputs.{
  Event, tapped, command, tick, outside, events, inputs-IsLit,
}
use stayturgid.ScreenControl.Session.Begins.{Granted, enter-Granted}
use stayturgid.ScreenControl.Session.Ends.{IsFreed, exit_ends}

abbrev env : Env
env = record {
  screen_project = [];
  stayturgid_project = [];
  screen_agent = [];
  stayturgid_agent = [];
  screen_force = [];
  stayturgid_force = [];
  pid = 11;
  hostname = codes "hub";
  fresh_id = codes "f0";
}

abbrev setup : Setup
setup = record {
  env = env;
  host = codes "p9";
  aliases = [];
  agent = codes "Auto";
  purpose = codes "test";
  force = false;
  wait = 0;
  skip = false;
  skip_request = false;
  clear = λ l. l;
}

abbrev works : Answer
works = record { done = true; good = true }

abbrev plain : Phone
plain = record { inverted = false; ime = codes "kb"; auto_rotate = true; rotation = 0 }

-- A world in which ssh returns these codes.
abbrev world_with : List ℕ → World
world_with returned = record {
  link = record {
    phone = plain;
    answers = works ∷ works ∷ works ∷ works ∷ works ∷ works ∷ works ∷ works ∷ [];
    sent = [];
  };
  codes = returned;
  asked = [];
  files = [];
}

abbrev lease : Lease
lease = build_lease env (settled env (request_of setup)) 100000

abbrev held_files : Files
held_files = write_lease_all_keys lease (codes "p9") none []

abbrev first_poll : List Poll
first_poll = (100000, []) ∷ []

it_acquires :
    acquire env (request_of setup) false 0 100000 first_poll
    ≡ some (Outcome.acquired lease held_files)
unfolding acquire attempts attempt can_write find_active_lease all_spellings list_leases first_match
it_acquires = refl

abbrev granted_at : World → Session
granted_at w = record {
  active = true;
  saved_ime = some (codes "kb");
  lease_session = codes "f0";
  lease_acquired = true;
}

abbrev session : Session
session = granted_at (world_with [])

abbrev inside : World
inside = record {
  link = record {
    phone = record { inverted = true; ime = codes "kb"; auto_rotate = false; rotation = 0 };
    answers = works ∷ works ∷ [];
    sent = [];
  };
  codes = [];
  asked = (Presence.on, 0) ∷ (Presence.request_screen, 0) ∷ [];
  files = held_files;
}

it_enters : enter setup 100000 first_poll (world_with (0 ∷ 0 ∷ [])) ≡ some (entered session inside)
unfolding enter enter_session apply_portrait_lock pin_rotation call ask get_default_ime ask_consent
    turn_on show_presence set_inversion inversion_enabled build_lease
it_enters = rw (enter, it_acquires) refl

enter-Granted_example : Granted setup (world_with (0 ∷ 0 ∷ [])) session inside
enter-Granted_example =
    enter-Granted setup 100000 first_poll (world_with (0 ∷ 0 ∷ [])) session inside refl refl
      (tt, tt) it_enters

-- The human denies: the lease is given back, and the display was never inverted.
abbrev turned_away : World
turned_away = record {
  link = record {
    phone = record { inverted = false; ime = codes "kb"; auto_rotate = false; rotation = 0 };
    answers = works ∷ works ∷ works ∷ works ∷ [];
    sent = [];
  };
  codes = [];
  asked = (Presence.request_screen, 75) ∷ [];
  files = (release env (codes "p9") (codes "f0") false held_files).1;
}

it_refuses :
    enter setup 100000 first_poll (world_with (75 ∷ [])) ≡ some (refused denied turned_away)
unfolding enter enter_session apply_portrait_lock pin_rotation call ask get_default_ime ask_consent
    build_lease
it_refuses = rw (enter, it_acquires) refl

abbrev granted : Granted setup (world_with (0 ∷ 0 ∷ [])) session inside
granted =
    enter-Granted setup 100000 first_poll (world_with (0 ∷ 0 ∷ [])) session inside refl refl
      (tt, tt) it_enters

exit_ends_example :
    let (s', w') = exit setup session inside in
    (s'.active ≡ false)
    × (read (lease_path (codes "p9")) w'.files ≡ none)
    × IsFreed setup session w'
    × (exit setup s' w' ≡ (s', w'))
exit_ends_example = exit_ends setup session inside refl refl granted.held

-- Someone turns the inversion off between two taps.
abbrev tap_args : List Text
tap_args = codes "input" ∷ codes "tap" ∷ codes "3" ∷ codes "4" ∷ []

abbrev tap : Event
tap = command tap_args (λ p. p)

abbrev taps : List Event
taps = tap ∷ outside (λ p. record p { inverted = false }) ∷ tap ∷ tick 110000 ∷ tap ∷ []

inputs-IsLit_example : ¬ Mem (tap_args, false) (events setup session taps inside).link.sent
inputs-IsLit_example = inputs-IsLit setup session taps inside tap_args refl refl tapped
