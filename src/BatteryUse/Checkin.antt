-- ===== src/BatteryUse/Checkin.antt =====
-- `parse_checkin` of device/termux/py/stayturgid_battery_use.py.
use stayturgid.Base.{
  ℕ, zero, suc, Bool, true, false, not, ◌||◌, ◌&&◌, Option, none, some, List, [], ◌∷◌, ◌++◌, Text,
  codes, text_eq, member, is_empty, length, take, ltb, leb, ◌==◌, if◌then◌else◌, assign, ℤ, pos,
  eqℤ, ◌+ℤ◌, int_of,
}
use stayturgid.BatteryUse.Fields.{split_commas, join_commas, ints, with_some, parse_wl, parse_job}
use stayturgid.BatteryUse.Tables.{Floats, at, put, Net, ProcUse, UidRow, Tables}

-- The characters other than `\r` at which `str.splitlines` ends a line.
abbrev pub is_line_end : ℕ → Bool
is_line_end c = leb 10 c && leb c 12 || leb 28 c && leb c 30 || c == 133 || c == 8232 || c == 8233

-- `str.splitlines`, given the line so far and whether the last character was `\r`.
unfoldable pub lines_from : Text → Bool → Text → List Text
lines_from line after_cr [] = if is_empty line then [] else line ∷ []
lines_from line after_cr (c ∷ s) = elim (after_cr && c == 10) [
  | true ↦ lines_from line false s
  | false ↦ elim (c == 13) [
    | true ↦ line ∷ lines_from [] true s
    | false ↦ elim (is_line_end c) [
      | true ↦ line ∷ lines_from [] false s
      | false ↦ lines_from (line ++ c ∷ []) false s
    ]
  ]
]

-- The fields of a line that has five of them at least: the second to the fourth, and the rest.
abbrev pub head_fields : List Text → Option (Text × Text × Text × List Text)
head_fields [] = none
head_fields (a ∷ []) = none
head_fields (a ∷ b ∷ []) = none
head_fields (a ∷ b ∷ c ∷ []) = none
head_fields (a ∷ b ∷ c ∷ d ∷ []) = none
head_fields (a ∷ b ∷ c ∷ d ∷ e ∷ rest) = some (b, c, d, e ∷ rest)

abbrev pub first : List Text → Text
first [] = []
first (f ∷ fs) = f

abbrev pub second : List Text → Text
second [] = []
second (f ∷ fs) = first fs

abbrev pub or_zero : List ℤ → ℤ
or_zero [] = pos 0
or_zero (n ∷ ns) = n

abbrev tail {ℓ} : {A : Type ℓ} → List A → List A
tail [] = []
tail (x ∷ xs) = xs

abbrev is_zero : ℤ → Bool
is_zero n = eqℤ n (pos 0)

abbrev nth_opt : ℕ → List ℤ → Option ℤ
nth_opt n [] = none
nth_opt zero (x ∷ xs) = some x
nth_opt (suc n) (x ∷ xs) = nth_opt n xs

-- The counters of a line of the section `nt`.
abbrev pub net_of : List ℤ → Option Net
net_of [] = none
net_of (a ∷ []) = none
net_of (a ∷ b ∷ []) = none
net_of (a ∷ b ∷ c ∷ []) = none
net_of (a ∷ b ∷ c ∷ d ∷ more) = some (record {
  mobile_rx = a;
  mobile_tx = b;
  wifi_rx = c;
  wifi_tx = d;
  mobile_active_ms = nth_opt 4 more;
})

module _ {F : Type 0} (fl : Floats F) where
  abbrev pub blank_uid : UidRow F
  blank_uid = record {
    pkgs = [];
    mah = none;
    mah_is_sum = false;
    mah_parts = [];
    wakelocks = [];
    cpu_user_ms = pos 0;
    cpu_system_ms = pos 0;
    procs = [];
    net = none;
    jobs = [];
  }

  abbrev pub no_tables : Tables F
  no_tables = record {
    uid_map = [];
    uids = [];
    device_power = [];
    version = none;
    capacity = none;
    computed = none;
    discharge = none;
  }

  abbrev pub row_of : ℤ → Tables F → UidRow F
  row_of uid t = elim (at uid t.uids) [ none ↦ blank_uid | some row ↦ row ]

  -- A change of the row that `uid_row` returns.
  abbrev pub set_row : ℤ → (UidRow F → UidRow F) → Tables F → Tables F
  set_row uid change t = record t { uids = put uid (change (row_of uid t)) t.uids }

  -- Section `uid`: a package of a user id.
  unfoldable pub map_uid : List Text → Tables F → Tables F
  map_uid rest t = elim (int_of (first rest)) [
    | none ↦ t
    | some mapped ↦
        let known : List Text = elim (at mapped t.uid_map) [ none ↦ [] | some pkgs ↦ pkgs ] in
        let pkgs = if member (second rest) known then known else known ++ second rest ∷ [] in
        record t { uid_map = put mapped pkgs t.uid_map }
  ]

  -- Section `pws`: the capacity, and the computed drain beside it.
  unfoldable pub read_power : List Text → Tables F → Tables F
  read_power rest t = elim (fl.read (first rest)) [
    | none ↦ t
    | some c ↦
        if ltb 1 (length rest)
        then elim (fl.read (second rest)) [
          | none ↦ record t { capacity = some c }
          | some d ↦ record t { capacity = some c; computed = some d }
        ]
        else record t { capacity = some c; computed = none }
  ]

  -- Section `pwi`: the drain of the device by component, or of a user id.
  unfoldable pub read_drain : ℤ → List Text → Tables F → Tables F
  read_drain uid rest t = elim (fl.read (second rest)) [
    | none ↦ t
    | some mah ↦
        if is_zero uid
        then record t { device_power = assign (first rest) mah t.device_power }
        else set_row uid (λ r. record r { mah_parts = assign (first rest) mah r.mah_parts }) t
  ]

  unfoldable pub read_wl : ℤ → List Text → Tables F → Tables F
  read_wl uid rest t = elim (parse_wl rest) [
    | none ↦ t
    | some w ↦ set_row uid (λ r. record r { wakelocks = r.wakelocks ++ w ∷ [] }) t
  ]

  unfoldable pub read_nt : ℤ → List Text → Tables F → Tables F
  read_nt uid rest t = elim (with_some (ints (take 10 rest)) net_of) [
    | none ↦ t
    | some n ↦ set_row uid (λ r. record r { net = some n }) t
  ]

  -- Section `pr`: the processor time of a process.
  unfoldable pub read_pr : ℤ → List Text → Tables F → Tables F
  read_pr uid rest t = elim (ints (tail rest)) [
    | none ↦ t
    | some nums ↦ elim nums [
      | [] ↦ t
      | user ∷ more ↦
          let system = or_zero more in
          let row : ProcUse = record { name = first rest; user_ms = user; system_ms = system } in
          set_row uid
            (λ r. record r {
              cpu_user_ms = r.cpu_user_ms +ℤ user;
              cpu_system_ms = elim more [ [] ↦ r.cpu_system_ms | s ∷ _ ↦ r.cpu_system_ms +ℤ s ];
              procs = r.procs ++ row ∷ [];
            })
            t
    ]
  ]

  unfoldable pub read_jb : ℤ → List Text → Tables F → Tables F
  read_jb uid rest t = elim (parse_job rest) [
    | none ↦ t
    | some j ↦ set_row uid (λ r. record r { jobs = r.jobs ++ j ∷ [] }) t
  ]

  -- The body of the loop over the lines, for a line whose user id is a number.
  unfoldable pub read_section : ℤ → Text → Text → List Text → Tables F → Tables F
  read_section uid mode section rest t =
      if text_eq section (codes "vers") && is_zero uid
      then record t { version = some (join_commas (take 6 rest)) }
      else if text_eq section (codes "uid") && leb 2 (length rest)
      then map_uid rest t
      else if not (text_eq mode (codes "l"))
      then t
      else if text_eq section (codes "pws") && is_zero uid
      then read_power rest t
      else if text_eq section (codes "dc") && is_zero uid
      then record t { discharge = ints rest }
      else if text_eq section (codes "pwi") && leb 2 (length rest)
      then read_drain uid rest t
      else if text_eq section (codes "wl")
      then read_wl uid rest t
      else if text_eq section (codes "nt")
      then read_nt uid rest t
      else if text_eq section (codes "pr")
      then read_pr uid rest t
      else if text_eq section (codes "jb")
      then read_jb uid rest t
      else t

  unfoldable pub read_line : Text → Tables F → Tables F
  read_line line t = elim (head_fields (split_commas line)) [
    | none ↦ t
    | some (uid_text, mode, section, rest) ↦ elim (int_of uid_text) [
      | none ↦ t
      | some uid ↦ read_section uid mode section rest t
    ]
  ]

  unfoldable pub read_lines : List Text → Tables F → Tables F
  read_lines [] t = t
  read_lines (line ∷ lines) t = read_lines lines (read_line line t)
