-- ===== src/BatteryAlarm/Player/Ends.antt =====
-- When the player ends and when it plays.
use stayturgid.Base.{
  ℕ, ◌+◌, ◌-◌, ◌*◌, ◌/◌, ◌≤◌, ◌<◌, ◌≡◌, ◌≢◌, refl, true, false, ◌||◌, ◌&&◌, not, none, List, [],
  ◌∷◌, ◌++◌, arith, All, length, ltb, Bool-cases, Option-cases, inl, inr,
}
use stayturgid.BatteryAlarm.Clock.{quiet_hours}
use stayturgid.BatteryAlarm.Sound.{Why, is_ring}
use stayturgid.BatteryAlarm.Player.{Look, sleep_until, ending_at, rounds, play, awake, sound_loop}

-- A clip lasts four seconds: the looks of the rounds are at least so far apart.
abbrev pub Spaced : ℕ → List Look → Type 0
Spaced earliest [] = Unit
Spaced earliest (l ∷ ls) = (earliest ≤ l.now) × Spaced (l.now + 4000) ls

-- A sound is kept from playing at a look.
abbrev pub IsHushed : ℕ → Why → Look → Type 0
IsHushed secs why l =
    (l.stop
      || (not (ltb 0 secs) && quiet_hours (l.now / 1000)
          || not (is_ring why) && (l.quiet || l.powered)))
    ≡ true

module _ (secs end : ℕ) (why : Why) where
  ending_at-none :
      (l : Look)
      → ending_at secs end why l ≡ none
      → ((l.stop
            || (not (ltb 0 secs) && quiet_hours (l.now / 1000)
                || not (is_ring why) && (l.quiet || l.powered)))
          ≡ false)
        × (0 < secs → l.now < end)
  unfolding ending_at
  ending_at-none l h = (ground arith, λ pos. ground arith)

  rounds_bound :
      (earliest : ℕ) (looks : List Look)
      → 0 < secs
      → Spaced earliest looks
      → 4000 * length (rounds secs end why looks).0 ≤ (end - earliest) + 3999
  unfolding rounds
  rounds_bound earliest [] pos h = omega arith
  rounds_bound earliest (l ∷ ls) pos h =
      let ih = rounds_bound (l.now + 4000) ls pos h.1 in
      elim (Option-cases (ending_at secs end why l)) [
        | inl on ↦ rw (on, rounds) (omega (arith, ih, (ending_at-none l on).1 pos, h.0))
        | inr (e, off) ↦ rw (off, rounds) (omega arith)
      ]

  rounds_end :
      (earliest : ℕ) (looks : List Look)
      → 0 < secs
      → Spaced earliest looks
      → 0 < length looks
      → end + 4000 ≤ earliest + 4000 * length looks
      → (rounds secs end why looks).1 ≢ none
  unfolding rounds
  rounds_end earliest [] pos h some_look d = absurd (omega arith)
  rounds_end earliest (l ∷ ls) pos h some_look d = elim (Option-cases (ending_at secs end why l)) [
    | inl on ↦
        let early = (ending_at-none l on).1 pos in
        rw (on, rounds)
          (rounds_end (l.now + 4000) ls pos h.1 (omega (arith, early, h.0)) (omega (arith, h.0)))
    | inr (e, off) ↦ rw (off, rounds) (λ q. cc)
  ]

  -- Looks after one at which the sound is hushed make no difference.
  rounds_hushed :
      (before after : List Look) (l : Look)
      → IsHushed secs why l
      → (rounds secs end why (before ++ l ∷ after) ≡ rounds secs end why (before ++ l ∷ []))
        × ((rounds secs end why (before ++ l ∷ after)).1 ≢ none)
  unfolding rounds
  rounds_hushed [] after l h = elim (Option-cases (ending_at secs end why l)) [
    | inl on ↦ cc (h, (ending_at-none l on).0)
    | inr (e, off) ↦ rw (off, rounds) (refl, λ q. cc)
  ]
  rounds_hushed (m ∷ before) after l h = elim (Option-cases (ending_at secs end why m)) [
    | inl on ↦
        let (same, ended) = rounds_hushed before after l h in rw (on, rounds) (rw same, ended)
    | inr (e, off) ↦ rw (off, rounds) (refl, λ q. cc)
  ]

  -- The clips are started where nothing hushes the sound.
  rounds_audible :
      (looks : List Look)
      → ltb 0 secs ≡ false
      → All (λ (t : ℕ). quiet_hours (t / 1000) ≡ false) (rounds secs end why looks).0
  unfolding rounds
  rounds_audible [] loop = tt
  rounds_audible (l ∷ ls) loop = elim (Option-cases (ending_at secs end why l)) [
    | inl on ↦ rw (on, rounds) (ground (arith, (ending_at-none l on).0), rounds_audible ls loop)
    | inr (e, off) ↦ rw (off, rounds) tt
  ]

-- The looks after the delay are spaced like clips.
abbrev AwakeSpaced : List Look → Type 0
AwakeSpaced [] = Unit
AwakeSpaced (l ∷ ls) = Spaced l.now ls

abbrev pub Paced : ℕ → List Look → Type 0
Paced wake looks = AwakeSpaced (sleep_until wake looks)

awake_bound :
    (secs : ℕ) (why : Why) (looks : List Look)
    → 0 < secs
    → AwakeSpaced looks
    → (4000 * length (awake secs why looks).0 ≤ secs * 1000 + 3999)
      × (secs * 1000 + 8000 ≤ 4000 * length looks → (awake secs why looks).1 ≢ none)
unfolding awake
awake_bound secs why [] pos h = (omega arith, λ d. absurd (omega arith))
awake_bound secs why (l ∷ []) pos h = (ground arith, λ d. absurd (omega arith))
awake_bound secs why (l ∷ m ∷ ls) pos h =
    let bound = rounds_bound secs (m.now + secs * 1000) why m.now (m ∷ ls) pos (omega arith, h.1) in
    let ends = rounds_end secs (m.now + secs * 1000) why m.now (m ∷ ls) pos (omega arith, h.1) in
    elim (Bool-cases l.stop) [
      | inl stop ↦ rw (stop, awake) (omega arith, λ d q. cc)
      | inr go ↦ elim (Bool-cases (not (is_ring why) && l.powered)) [
        | inl power ↦ rw (go, power, awake) (omega arith, λ d q. cc)
        | inr dry ↦
            rw (go, dry, awake) (omega (arith, bound), λ d. ends (omega arith) (omega arith))
      ]
    ]

-- A timed sound starts at most as many clips of four seconds as begin in its seconds.
pub timed_bound :
    (secs delay : ℕ) (why : Why) (started : ℕ) (looks : List Look)
    → 0 < secs
    → Paced (started + delay * 1000) looks
    → 4000 * length (sound_loop secs delay why started looks).0 ≤ secs * 1000 + 3999
unfolding sound_loop
timed_bound secs delay why started looks pos h =
    (awake_bound secs why (sleep_until (started + delay * 1000) looks) pos h).0

-- A timed sound has ended once the looks after its delay, less two, last as long as its seconds.
pub timed_ends :
    (secs delay : ℕ) (why : Why) (started : ℕ) (looks : List Look)
    → 0 < secs
    → Paced (started + delay * 1000) looks
    → secs * 1000 + 8000 ≤ 4000 * length (sleep_until (started + delay * 1000) looks)
    → (sound_loop secs delay why started looks).1 ≢ none
unfolding sound_loop
timed_ends secs delay why started looks pos h d =
    (awake_bound secs why (sleep_until (started + delay * 1000) looks) pos h).1 d

awake_sleeps :
    (why : Why) (ls : List Look)
    → All (λ (t : ℕ). quiet_hours (t / 1000) ≡ false) (awake 0 why ls).0
unfolding awake
awake_sleeps why [] = tt
awake_sleeps why (l ∷ []) = ground arith
awake_sleeps why (l ∷ m ∷ ls) = elim (Bool-cases (l.stop || not (is_ring why) && l.powered)) [
  | inl off ↦ ground arith
  | inr go ↦ ground (arith, rounds_audible 0 (m.now + 0 * 1000) why (m ∷ ls) refl)
]

-- A loop starts no clip in the quiet hours.
pub loop_sleeps :
    (delay : ℕ) (why : Why) (started : ℕ) (looks : List Look)
    → All (λ (t : ℕ). quiet_hours (t / 1000) ≡ false) (sound_loop 0 delay why started looks).0
unfolding sound_loop
loop_sleeps delay why started looks = awake_sleeps why (sleep_until (started + delay * 1000) looks)

-- What ends the player: the stop file, or power for a sound that was not asked for.
abbrev pub Halts : Why → Look → Type 0
Halts why l = (l.stop || not (is_ring why) && l.powered) ≡ true

sleep_until-halt :
    (wake : ℕ) (before : List Look) (l : Look)
    → (ltb l.now wake && not l.stop) ≡ false
    → (rest : List Look) × ((after : List Look)
        → sleep_until wake (before ++ l ∷ after) ≡ rest ++ l ∷ after)
unfolding sleep_until
sleep_until-halt wake [] l up = ([], λ after. rw up)
sleep_until-halt wake (m ∷ before) l up = elim (Bool-cases (ltb m.now wake && not m.stop)) [
  | inl asleep ↦
      let (rest, e) = sleep_until-halt wake before l up in
      (rest, λ after. rw (asleep, sleep_until) (e after))
  | inr awake ↦ (m ∷ before, λ after. rw (awake, sleep_until))
]

play-Halts :
    (secs : ℕ) (why : Why) (before after : List Look) (l : Look)
    → Halts why l
    → (play secs why (before ++ l ∷ after) ≡ play secs why (before ++ l ∷ []))
      × ((play secs why (before ++ l ∷ after)).1 ≢ none)
play-Halts secs why [] after l h =
    rounds_hushed secs (l.now + secs * 1000) why [] after l (ground arith)
play-Halts secs why (m ∷ before) after l h =
    rounds_hushed secs (m.now + secs * 1000) why (m ∷ before) after l (ground arith)

awake-Halts :
    (secs : ℕ) (why : Why) (before after : List Look) (l : Look)
    → Halts why l
    → (awake secs why (before ++ l ∷ after) ≡ awake secs why (before ++ l ∷ []))
      × ((awake secs why (before ++ l ∷ after)).1 ≢ none)
unfolding awake
awake-Halts secs why [] after l h = elim (Bool-cases l.stop) [
  | inl stop ↦ rw (stop, awake) (refl, λ q. cc)
  | inr go ↦
      let power : (not (is_ring why) && l.powered) ≡ true = rw go at h in
      rw (go, power, awake) (refl, λ q. cc)
]
awake-Halts secs why (m ∷ before) after l h = elim (Bool-cases m.stop) [
  | inl stop ↦ rw (stop, awake) (refl, λ q. cc)
  | inr go ↦ elim (Bool-cases (not (is_ring why) && m.powered)) [
    | inl power ↦ rw (go, power, awake) (refl, λ q. cc)
    | inr dry ↦ rw (go, dry, awake) (play-Halts secs why before after l h)
  ]
]

-- A player that sees the stop file, or after its delay power if the sound is no explicit ring, has
-- ended, and what follows does not change what it played.
pub player-Halts :
    (secs delay : ℕ) (why : Why) (started : ℕ) (before after : List Look) (l : Look)
    → Halts why l
    → (ltb l.now (started + delay * 1000) && not l.stop) ≡ false
    → (sound_loop secs delay why started (before ++ l ∷ after)
        ≡ sound_loop secs delay why started (before ++ l ∷ []))
      × ((sound_loop secs delay why started (before ++ l ∷ after)).1 ≢ none)
unfolding sound_loop
player-Halts secs delay why started before after l h up =
    let (rest, e) = sleep_until-halt (started + delay * 1000) before l up in
    rw (e after, e []) (awake-Halts secs why rest after l h)
