-- ===== src/BatteryUse/Gauge.antt =====
-- `default_runner` and `_read_gauge` of device/termux/py/stayturgid_battery_use.py.
use stayturgid.Base.{
  ℕ, ◌*◌, Bool, false, not, Option, none, some, List, [], ◌∷◌, Text, codes, strip, length, take,
  ltb, Dict, get, assign, ℤ, pos, lebℤ, ◌+ℤ◌, int_of,
}

-- What a command leaves: its code, if it ended in time, and its output.
pub record Ran : Type 0 where
  pub rc : Option ℤ
  pub text : Text
  pub err : Text
  pub truncated : Bool

-- `subprocess.run`: the code and the bytes of both outputs, `TimeoutExpired`, or an OSError's text.
pub data Completed : Type 0 where
  ended : ℤ → List ℕ → List ℕ → Completed
  timed_out : Completed
  os_error : Text → Completed

abbrev pub max_dump_bytes : ℕ
max_dump_bytes = 8 * 1024 * 1024

-- `decode` is `bytes.decode("utf-8", "replace")`.
unfoldable pub default_runner : (List ℕ → Text) → Completed → Ran
default_runner decode timed_out = record {
  rc = none;
  text = [];
  err = codes "timeout";
  truncated = false;
}
default_runner decode (os_error message) = record {
  rc = none;
  text = [];
  err = take 200 message;
  truncated = false;
}
default_runner decode (ended rc out err) = record {
  rc = some rc;
  text = decode (take max_dump_bytes out);
  err = strip (decode (take 400 err));
  truncated = ltb max_dump_bytes (length out);
}

-- A value of the status file.
pub data Value : Type 0 where
  whole : ℤ → Value
  word : Text → Value

-- The status file: a missing value is `null`.
abbrev pub StatusFile : Type 0
StatusFile = Dict (Option Value)

abbrev pub int_value : Option Value → Option ℤ
int_value none = none
int_value (some (whole n)) = some n
int_value (some (word s)) = int_of s

abbrev pub field : Text → StatusFile → Option Value
field k status = elim (get k status) [ none ↦ none | some v ↦ v ]

pub record Gauge : Type 0 where
  pub fields : StatusFile
  pub status_ts : Option ℤ
  pub stale : Bool

abbrev pub no_gauge : Gauge
no_gauge = record { fields = []; status_ts = none; stale = false }

abbrev copied_keys : List Text
copied_keys = codes "pct" ∷ codes "status" ∷ codes "plugged" ∷ []

abbrev gauge_keys : List Text
gauge_keys =
    codes "charge_counter"
    ∷ codes "current"
    ∷ codes "current_average"
    ∷ codes "energy"
    ∷ codes "temperature"
    ∷ codes "voltage"
    ∷ []

-- `if key in status`
unfoldable pub copy_fields : List Text → StatusFile → StatusFile → StatusFile
copy_fields [] status g = g
copy_fields (k ∷ ks) status g =
    copy_fields ks status (elim (get k status) [ none ↦ g | some v ↦ assign k v g ])

-- `if status.get(key) is not None`
unfoldable pub copy_values : List Text → StatusFile → StatusFile → StatusFile
copy_values [] status g = g
copy_values (k ∷ ks) status g =
    copy_values ks status (elim (field k status) [ none ↦ g | some v ↦ assign k (some v) g ])

-- `_read_gauge`, of a status file that is missing or is read.
unfoldable pub read_gauge : Option StatusFile → ℕ → Gauge
read_gauge none now = no_gauge
read_gauge (some status) now =
    let ts = int_value (field (codes "ts") status) in
    record {
      fields = copy_values gauge_keys status (copy_fields copied_keys status []);
      status_ts = ts;
      stale = elim ts [ none ↦ false | some t ↦ not (lebℤ (pos now) (t +ℤ pos 1200)) ];
    }
