-- ===== src/BatteryWatch/Run.antt =====
-- `run` of control/lib/battery_watch.py: one pass over the hosts and this computer.
use stayturgid.Base.{
  ℕ, Bool, true, false, Option, none, some, List, [], ◌∷◌, ◌++◌, Text, codes, if◌then◌else◌, Dict,
  get, assign,
}
use stayturgid.BatteryWatch.Status.{Status, Report, unreachable, empty, known}
use stayturgid.BatteryWatch.Evaluate.{Slots, Message, evaluate}
use stayturgid.BatteryWatch.RollCall.{Calendar, Line, rollcall}

-- battery-watch.json
pub record Memory : Type 0 where
  pub slots : Slots
  pub last : Dict Status
  pub rollcall_done : Option ℕ

pub data Notice : Type 0 where
  message : Message → Notice
  roll_call : List Line → Notice

abbrev pub notices : List Message → List Notice
notices [] = []
notices (m ∷ ms) = message m ∷ notices ms

-- What the loop over the hosts carries.
abbrev Pass : Type 0
Pass = List Message × Slots × Dict Status

unfoldable pub evaluate_hosts : List (Text × Report) → ℕ → Pass → Pass
evaluate_hosts [] now acc = acc
evaluate_hosts ((host, unreachable) ∷ rs) now acc = evaluate_hosts rs now acc
evaluate_hosts ((host, empty) ∷ rs) now acc = evaluate_hosts rs now acc
evaluate_hosts ((host, known st) ∷ rs) now (msgs, slots, last) =
    let (new, slots') = evaluate host st slots now false in
    evaluate_hosts rs now (msgs ++ new, slots', assign host st last)

-- `devices.get("_last", {}).get(host)` in place of `None`.
abbrev pub or_last : Dict Status → Text → Report → Report
or_last last host unreachable = elim (get host last) [ none ↦ unreachable | some st ↦ known st ]
or_last last host empty = empty
or_last last host (known st) = known st

unfoldable pub with_last : Dict Status → List (Text × Report) → List (Text × Report)
with_last last [] = []
with_last last ((host, r) ∷ rs) = (host, or_last last host r) ∷ with_last last rs

abbrev pub mac : Text
mac = codes "mac"

abbrev evaluate_mac : Option Status → ℕ → Pass → Pass
evaluate_mac none now acc = acc
evaluate_mac (some st) now (msgs, slots, last) =
    let (new, slots') = evaluate mac st slots now true in (msgs ++ new, slots', last)

abbrev mac_report : Option Status → List (Text × Report)
mac_report none = []
mac_report (some st) = (mac, known st) ∷ []

abbrev call_notice : Option (List Line) → List Notice
call_notice none = []
call_notice (some ls) = roll_call ls ∷ []

-- The notices of one pass and what it remembers.
unfoldable pub pass :
    Calendar → List (Text × Report) → Option Status → ℕ → Memory → List Notice × Memory
unfolding evaluate_hosts with_last
pass cal reports mac_st now m =
    let (msgs, slots, last) =
      evaluate_mac mac_st now (evaluate_hosts reports now ([], m.slots, m.last)) in
    let (call, done) =
      rollcall cal (with_last last reports ++ mac_report mac_st) m.rollcall_done now in
    (notices msgs ++ call_notice call, record { slots = slots; last = last; rollcall_done = done })

-- What is returned, what is sent, and what the state file then holds. A dry run sends and saves nothing.
unfoldable pub run :
    Calendar
    → List (Text × Report)
    → Option Status
    → ℕ
    → Bool
    → Memory
    → List Notice × List Notice × Memory
unfolding pass
run cal reports mac_st now dry m =
    let (due, m') = pass cal reports mac_st now m in if dry then (due, [], m) else (due, due, m')
