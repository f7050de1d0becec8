-- ===== src/BatteryUse/Rows.antt =====
-- The rows of the tracked packages: `_counter_delta`, `_tracked_rows` and `_tracked_mah` of
-- device/termux/py/stayturgid_battery_use.py.
pub mod Once
use stayturgid.Base.{
  ℕ, ◌-◌, Bool, true, false, not, ◌||◌, ◌&&◌, Option, none, some, List, [], ◌∷◌, ◌++◌, Text, codes,
  text_eq, text_lt, member, length, take, ltb, if◌then◌else◌, Dict, get, ℤ, pos, eqℤ, lebℤ, ◌+ℤ◌,
}
use stayturgid.BatteryUse.Fields.{Wakelock, Job}
use stayturgid.BatteryUse.Tables.{Floats, IntDict, at, put, Net, ProcUse, UidRow, Tables}
use stayturgid.BatteryUse.Prose.{Prose}
use stayturgid.BatteryUse.Schedule.{Counters}
use stayturgid.BatteryUse.Report.{Parsed, checkin, human}

abbrev pub child_top_n : ℕ
child_top_n = 8

abbrev pub tracked_packages : List Text
tracked_packages =
    codes "com.tailscale.ipn"
    ∷ codes "com.termux"
    ∷ codes "com.termux.api"
    ∷ codes "com.termux.boot"
    ∷ codes "com.termux.styling"
    ∷ codes "com.termux.widget"
    ∷ codes "com.termux.window"
    ∷ codes "dev.imranr.obtainium"
    ∷ codes "moe.shizuku.privileged.api"
    ∷ codes "net.dinglisch.android.taskerm"
    ∷ codes "org.stayturgid.agent"
    ∷ codes "org.stayturgid.agent.debug"
    ∷ []

-- What a row says of the counters since the last baseline: their differences, by name, or that the
-- counting began again.
pub data Change (F : Type 0) : Type 0 where
  window_reset : Change F
  differences : Counters F → Change F

-- A row of a user id, for one of its packages. The log leaves out what is empty.
pub record PackageRow (F : Type 0) : Type 0 where
  pub pkg : Text
  pub uid : ℤ
  pub mah : Option F
  pub mah_is_sum : Bool
  pub mah_parts : Dict F
  pub cpu_user_ms : ℤ
  pub cpu_system_ms : ℤ
  pub wakelock_partial_ms : ℤ
  pub wakelock_full_ms : ℤ
  pub wakelocks : List Wakelock
  pub wakelocks_omitted : ℕ
  pub net : Option Net
  pub jobs : List Job
  pub procs : List ProcUse
  pub shared_uid : Bool
  pub change : Change F

-- A row of the log: of a package of the prose report, or of a user id's package.
pub data Row (F : Type 0) : Type 0 where
  prose_row : Text → F → Row F
  package_row : PackageRow F → Row F

unfoldable pub tracked : List Text → List Text
tracked [] = []
tracked (p ∷ ps) = let rest = tracked ps in if member p tracked_packages then p ∷ rest else rest

unfoldable pub sum_of {ℓ} : {A : Type ℓ} → (A → ℤ) → List A → ℤ
sum_of f [] = pos 0
sum_of f (x ∷ xs) = f x +ℤ sum_of f xs

-- A wakelock that was held.
abbrev is_held : Wakelock → Bool
is_held w = not (eqℤ w.partial_ms (pos 0)) || not (eqℤ w.full_ms (pos 0))

abbrev held : List Wakelock → List Wakelock
held [] = []
held (w ∷ ws) = let rest = held ws in if is_held w then w ∷ rest else rest

abbrev pub pkg_of : {F : Type 0} → Row F → Text
pkg_of (prose_row p x) = p
pkg_of (package_row r) = r.pkg

abbrev pub uid_of : {F : Type 0} → Row F → Option ℤ
uid_of (prose_row p x) = none
uid_of (package_row r) = some r.uid

abbrev pub mah_of : {F : Type 0} → Row F → Option F
mah_of (prose_row p x) = some x
mah_of (package_row r) = r.mah

-- `r.get("uid", 0)`
abbrev uid_or_zero : Option ℤ → ℤ
uid_or_zero none = pos 0
uid_or_zero (some u) = u

-- The order of `(pkg, uid)`: the second row comes first.
abbrev comes_first : {F : Type 0} → Row F → Row F → Bool
comes_first r s =
    text_lt (pkg_of s) (pkg_of r)
    || text_eq (pkg_of s) (pkg_of r) && not (lebℤ (uid_or_zero (uid_of r)) (uid_or_zero (uid_of s)))

unfoldable pub put_row : {F : Type 0} → Row F → List (Row F) → List (Row F)
put_row r [] = r ∷ []
put_row r (s ∷ rows) =
    let rest = put_row r rows in if comes_first r s then s ∷ rest else r ∷ s ∷ rows

unfoldable pub sort_rows : {F : Type 0} → List (Row F) → List (Row F)
sort_rows [] = []
sort_rows (r ∷ rows) = put_row r (sort_rows rows)

abbrev counter : {F : Type 0} → Text → Option F → Counters F
counter name none = []
counter name (some x) = (name, x) ∷ []

module _ {F : Type 0} (fl : Floats F) where
  -- The difference, and whether the counter has gone back.
  unfoldable pub counter_delta : Option F → F → Option F × Bool
  counter_delta none new = (none, false)
  counter_delta (some old) new =
      if fl.went_back new old then (none, true) else (some (fl.minus new old), false)

  abbrev named_delta : Text → Option F → Counters F
  named_delta k none = []
  named_delta k (some d) = (codes "d_" ++ k, d) ∷ []

  -- The loop over the counters: whether one has gone back, and the differences.
  unfoldable pub deltas : Counters F → Counters F → Bool × Counters F
  deltas prev [] = (false, [])
  deltas prev ((k, new) ∷ base) =
      let (reset, rest) = deltas prev base in
      let (d, back) = counter_delta (get k prev) new in (back || reset, named_delta k d ++ rest)

  unfoldable pub change_since : Counters F → Counters F → Change F
  change_since prev base =
      let (reset, ds) = deltas prev base in if reset then window_reset else differences ds

  abbrev net_counters : Option Net → Counters F
  net_counters none = []
  net_counters (some n) =
      (codes "wifi_rx", fl.of_int n.wifi_rx)
      ∷ (codes "wifi_tx", fl.of_int n.wifi_tx)
      ∷ (codes "mobile_rx", fl.of_int n.mobile_rx)
      ∷ (codes "mobile_tx", fl.of_int n.mobile_tx)
      ∷ []

  -- `base`, without the counters that are missing.
  unfoldable pub base_of : UidRow F → Counters F
  base_of src =
      counter (codes "mah") src.mah
      ++ (codes "cpu_user_ms", fl.of_int src.cpu_user_ms)
        ∷ (codes "cpu_system_ms", fl.of_int src.cpu_system_ms)
        ∷ (codes "wakelock_partial_ms", fl.of_int (sum_of (λ w. w.partial_ms) src.wakelocks))
        ∷ net_counters src.net

  abbrev prev_of : ℤ → IntDict (Counters F) → Counters F
  prev_of uid prevs = elim (at uid prevs) [ none ↦ [] | some c ↦ c ]

  unfoldable pub package_rows :
      IntDict (Counters F) → ℤ → UidRow F → Bool → List Text → List (Row F)
  package_rows prevs uid src shared [] = []
  package_rows prevs uid src shared (pkg ∷ pkgs) =
      package_row (record {
        pkg = pkg;
        uid = uid;
        mah = src.mah;
        mah_is_sum = src.mah_is_sum;
        mah_parts = src.mah_parts;
        cpu_user_ms = src.cpu_user_ms;
        cpu_system_ms = src.cpu_system_ms;
        wakelock_partial_ms = sum_of (λ w. w.partial_ms) src.wakelocks;
        wakelock_full_ms = sum_of (λ w. w.full_ms) src.wakelocks;
        wakelocks = held (take child_top_n src.wakelocks);
        wakelocks_omitted = length src.wakelocks - child_top_n;
        net = src.net;
        jobs = take child_top_n src.jobs;
        procs = take child_top_n src.procs;
        shared_uid = shared;
        change = change_since (prev_of uid prevs) (base_of src);
      })
      ∷ package_rows prevs uid src shared pkgs

  -- The loop over the user ids: the rows and the new baselines.
  unfoldable pub checkin_rows :
      IntDict (Counters F) → IntDict (UidRow F) → List (Row F) × IntDict (Counters F)
  checkin_rows prevs [] = ([], [])
  checkin_rows prevs ((uid, src) ∷ uids) =
      let (rows, bases) = checkin_rows prevs uids in
      elim (tracked src.pkgs) [
        | [] ↦ (rows, bases)
        | pkg ∷ pkgs ↦ (
          package_rows prevs uid src (ltb 1 (length (pkg ∷ pkgs))) (pkg ∷ pkgs) ++ rows,
          (uid, base_of src) ∷ bases,
        )
      ]

  unfoldable pub prose_rows : Dict F → List (Row F)
  prose_rows [] = []
  prose_rows ((pkg, x) ∷ d) =
      let rest = prose_rows d in
      if member pkg tracked_packages then prose_row pkg x ∷ rest else rest

  unfoldable pub tracked_rows :
      Parsed F → IntDict (Counters F) → List (Row F) × IntDict (Counters F)
  tracked_rows (human p) prevs = (sort_rows (prose_rows p.pkg_mah), [])
  tracked_rows (checkin t) prevs =
      let (rows, bases) = checkin_rows prevs t.uids in (sort_rows rows, bases)

  abbrev pub is_seen : Option ℤ → List ℤ → Bool
  is_seen none seen = false
  is_seen (some u) [] = false
  is_seen (some u) (v ∷ seen) = eqℤ v u || is_seen (some u) seen

  -- A row without a user id adds its package's name to `seen`, which no later test meets.
  abbrev pub note_uid : Option ℤ → List ℤ → List ℤ
  note_uid none seen = seen
  note_uid (some u) seen = u ∷ seen

  -- The loop of `_tracked_mah`: `seen`, `total` and `any_mah`.
  unfoldable pub add_rows : List (Row F) → List ℤ → F → Bool → Option F
  add_rows [] seen total any_mah = if any_mah then some total else none
  add_rows (r ∷ rows) seen total any_mah = elim (mah_of r) [
    | none ↦ add_rows rows seen total any_mah
    | some x ↦ elim (is_seen (uid_of r) seen) [
      | true ↦ add_rows rows seen total any_mah
      | false ↦ add_rows rows (note_uid (uid_of r) seen) (fl.plus total x) true
    ]
  ]

  unfoldable pub tracked_mah : List (Row F) → Option F
  tracked_mah rows = add_rows rows [] (fl.of_int (pos 0)) false
