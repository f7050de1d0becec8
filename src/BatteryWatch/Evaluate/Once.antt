-- ===== src/BatteryWatch/Evaluate/Once.antt =====
-- How often the alerts of a device are sent between two charges.
use stayturgid.Base.{
  ℕ, ◌+◌, ◌≡◌, Bool, true, false, ◌||◌, ◌&&◌, not, some, List, [], ◌∷◌, ◌++◌, Text, arith, text_eq,
  text_eq_refl, if◌then◌else◌, get, get_or, discard, get-assign, get-discard, All, Bool-cases, inl,
  inr,
}
use stayturgid.BatteryWatch.Status.{Status, is_stale, on_charger}
use stayturgid.BatteryWatch.Evaluate.{
  Slot, fresh_slot, Slots, Message, low_battery, no_charger, evaluate, is_low, is_overdue,
}

-- How many messages of each kind a list holds.
abbrev pub count_low : List Message → ℕ
count_low [] = 0
count_low (low_battery n p e ∷ ms) = count_low ms + 1
count_low (no_charger n h p ∷ ms) = count_low ms

abbrev pub count_no_charger : List Message → ℕ
count_no_charger [] = 0
count_no_charger (low_battery n p e ∷ ms) = count_no_charger ms
count_no_charger (no_charger n h p ∷ ms) = count_no_charger ms + 1

-- The status is old, or the device is not on a charger: the slot is kept.
abbrev pub NoCharge : Status × ℕ → Type 0
NoCharge (st, now) = (is_stale st now || not (on_charger st)) ≡ true

-- 1 while the alert may still be sent.
abbrev left : Bool → ℕ
left true = 0
left false = 1

-- The slot after a pass without a charge.
pub slot-evaluate :
    (name : Text) (st : Status) (mem : Slots) (now : ℕ) (computer : Bool)
    → is_stale st now ≡ false
    → on_charger st ≡ false
    → let seen = get_or name fresh_slot mem in
      get name (evaluate name st mem now computer).1
      ≡ some (record {
        low = seen.low || is_low computer st now;
        nocharge = seen.nocharge || is_overdue computer st now;
      })
unfolding evaluate
slot-evaluate name st mem now computer fresh off =
    rw (fresh, off, evaluate) (simp (get-assign, text_eq_refl))

-- A pass sends what its slot allows, and takes it off.
evaluate_budget :
    (name : Text) (st : Status) (mem : Slots) (now : ℕ) (computer : Bool)
    → NoCharge (st, now)
    → let (msgs, mem') = evaluate name st mem now computer in
      (count_low msgs + left (get_or name fresh_slot mem').low
        ≡ left (get_or name fresh_slot mem).low)
      × (count_no_charger msgs + left (get_or name fresh_slot mem').nocharge
          ≡ left (get_or name fresh_slot mem).nocharge)
unfolding evaluate
evaluate_budget name st mem now computer h = elim (Bool-cases (is_stale st now)) [
  | inl old ↦ ground arith
  | inr new ↦ elim (Bool-cases (on_charger st)) [
    | inl on ↦ cc (h, new, on)
    | inr off ↦ ground (arith, slot-evaluate name st mem now computer new off)
  ]
]

-- The passes over one device: each status with the time of its pass.
unfoldable pub watch : Text → Bool → List (Status × ℕ) → Slots → List Message × Slots
watch name computer [] mem = ([], mem)
watch name computer ((st, now) ∷ ps) mem =
    let (msgs, mem') = evaluate name st mem now computer in
    let (rest, last) = watch name computer ps mem' in (msgs ++ rest, last)

count_low-append : (ms ns : List Message) → count_low (ms ++ ns) ≡ count_low ms + count_low ns
count_low-append [] ns = omega arith
count_low-append (low_battery n p e ∷ ms) ns = omega (arith, count_low-append ms ns)
count_low-append (no_charger n h p ∷ ms) ns = omega (arith, count_low-append ms ns)

count_no_charger-append :
    (ms ns : List Message) → count_no_charger (ms ++ ns) ≡ count_no_charger ms + count_no_charger ns
count_no_charger-append [] ns = omega arith
count_no_charger-append (low_battery n p e ∷ ms) ns = omega (arith, count_no_charger-append ms ns)
count_no_charger-append (no_charger n h p ∷ ms) ns = omega (arith, count_no_charger-append ms ns)

-- Some pass saw a current status that is low, or overdue for a charge.
abbrev pub any_low : Bool → List (Status × ℕ) → Bool
any_low computer [] = false
any_low computer ((st, now) ∷ ps) =
    not (is_stale st now) && is_low computer st now || any_low computer ps

abbrev pub any_overdue : Bool → List (Status × ℕ) → Bool
any_overdue computer [] = false
any_overdue computer ((st, now) ∷ ps) =
    not (is_stale st now) && is_overdue computer st now || any_overdue computer ps

-- What a slot has become by the passes.
slot_after_pass :
    (name : Text) (st : Status) (mem : Slots) (now : ℕ) (computer : Bool)
    → NoCharge (st, now)
    → let seen = get_or name fresh_slot mem in
      get_or name fresh_slot (evaluate name st mem now computer).1 ≡ record {
        low = seen.low || not (is_stale st now) && is_low computer st now;
        nocharge = seen.nocharge || not (is_stale st now) && is_overdue computer st now;
      }
unfolding evaluate
slot_after_pass name st mem now computer h = elim (Bool-cases (is_stale st now)) [
  | inl old ↦ rw (old, evaluate) (ground arith)
  | inr new ↦ elim (Bool-cases (on_charger st)) [
    | inl on ↦ cc (h, new, on)
    | inr off ↦ ground (arith, slot-evaluate name st mem now computer new off)
  ]
]

watch_budget :
    (name : Text) (computer : Bool) (ps : List (Status × ℕ)) (mem : Slots)
    → All NoCharge ps
    → let (msgs, mem') = watch name computer ps mem in
      (count_low msgs + left (get_or name fresh_slot mem').low
        ≡ left (get_or name fresh_slot mem).low)
      × (count_no_charger msgs + left (get_or name fresh_slot mem').nocharge
          ≡ left (get_or name fresh_slot mem).nocharge)
unfolding watch
watch_budget name computer [] mem h = (omega arith, omega arith)
watch_budget name computer ((st, now) ∷ ps) mem h =
    let now_sent = evaluate_budget name st mem now computer h.0 in
    let mem' = (evaluate name st mem now computer).1 in
    let later = watch_budget name computer ps mem' h.1 in
    let msgs = (evaluate name st mem now computer).0 in
    let rest = (watch name computer ps mem').0 in
    (
      omega (arith, count_low-append msgs rest, now_sent.0, later.0),
      omega (arith, count_no_charger-append msgs rest, now_sent.1, later.1),
    )

slot_after_watch :
    (name : Text) (computer : Bool) (ps : List (Status × ℕ)) (mem : Slots)
    → All NoCharge ps
    → let seen = get_or name fresh_slot mem in
      get_or name fresh_slot (watch name computer ps mem).1 ≡ record {
        low = seen.low || any_low computer ps;
        nocharge = seen.nocharge || any_overdue computer ps;
      }
unfolding watch
slot_after_watch name computer [] mem h = ground arith
slot_after_watch name computer ((st, now) ∷ ps) mem h = ground (
  arith,
  slot_after_pass name st mem now computer h.0,
  slot_after_watch name computer ps (evaluate name st mem now computer).1 h.1,
)

-- Over any passes in which the device is never seen on a charger, each of the two alerts is sent
-- exactly once if some pass calls for it and it was not sent before, and not at all otherwise.
pub alerts_once :
    (name : Text) (computer : Bool) (ps : List (Status × ℕ)) (mem : Slots)
    → All NoCharge ps
    → let seen = get_or name fresh_slot mem in
      let msgs = (watch name computer ps mem).0 in
      (count_low msgs ≡ (if any_low computer ps && not seen.low then 1 else 0))
      × (count_no_charger msgs ≡ (if any_overdue computer ps && not seen.nocharge then 1 else 0))
alerts_once name computer ps mem h =
    ground (arith, watch_budget name computer ps mem h, slot_after_watch name computer ps mem h)

evaluate_recharge :
    (name : Text) (st : Status) (mem : Slots) (now : ℕ) (computer : Bool)
    → is_stale st now ≡ false
    → on_charger st ≡ true
    → evaluate name st mem now computer ≡ ([], discard name mem)
unfolding evaluate
evaluate_recharge name st mem now computer new on = rw (new, on, evaluate)

-- Once a fresh status has shown the device on a charger, over passes in which it is not seen on
-- one again, each of the two alerts is sent once if some pass calls for it, whatever was sent
-- before.
pub recharge_rearms :
    (name : Text) (computer : Bool) (st : Status) (now : ℕ) (ps : List (Status × ℕ)) (mem : Slots)
    → is_stale st now ≡ false
    → on_charger st ≡ true
    → All NoCharge ps
    → let msgs = (watch name computer ((st, now) ∷ ps) mem).0 in
      (count_low msgs ≡ (if any_low computer ps then 1 else 0))
      × (count_no_charger msgs ≡ (if any_overdue computer ps then 1 else 0))
unfolding watch
recharge_rearms name computer st now ps mem new on h =
    rw (evaluate_recharge name st mem now computer new on) (
      ground (
        arith,
        alerts_once name computer ps (discard name mem) h,
        get-discard name name mem,
        text_eq_refl name,
      ))

-- A pass over one device leaves the slot of every other device as it was.
pub evaluate_others :
    (name other : Text) (st : Status) (mem : Slots) (now : ℕ) (computer : Bool)
    → text_eq name other ≡ false
    → get other (evaluate name st mem now computer).1 ≡ get other mem
unfolding evaluate
evaluate_others name other st mem now computer ne =
    let slot : Slot = record {
      low = (get_or name fresh_slot mem).low || is_low computer st now;
      nocharge = (get_or name fresh_slot mem).nocharge || is_overdue computer st now;
    } in
    ground (arith, get-discard name other mem, get-assign name other slot mem)
