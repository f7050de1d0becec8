-- ===== src/BatteryUse/Report.antt =====
-- The end of `parse_checkin`, and `parse_batterystats`, of
-- device/termux/py/stayturgid_battery_use.py.
use stayturgid.Base.{
  Bool, true, false, ◌||◌, Option, none, some, List, [], ◌∷◌, Text, codes, if◌then◌else◌, Dict, get,
  discard, pos, ◌+ℤ◌, ranked, after_prefix,
}
use stayturgid.BatteryUse.Tables.{Floats, IntDict, UidRow, Tables}
use stayturgid.BatteryUse.Checkin.{set_row, no_tables, lines_from, read_lines}
use stayturgid.BatteryUse.Prose.{Prose, parse_human}

-- `part in text`
unfoldable pub occurs : Text → Text → Bool
occurs part [] = false
occurs part (c ∷ s) = elim (after_prefix part (c ∷ s)) [ some _ ↦ true | none ↦ occurs part s ]

abbrev any {ℓ} : {A : Type ℓ} → List A → Bool
any [] = false
any (x ∷ xs) = true

abbrev given {ℓ} : {A : Type ℓ} → Option A → Bool
given none = false
given (some a) = true

-- What `parse_batterystats` returns.
pub data Parsed (F : Type 0) : Type 0 where
  checkin : Tables F → Parsed F
  human : Prose F → Parsed F

module _ {F : Type 0} (fl : Floats F) where
  unfoldable pub sum_values : F → Dict F → F
  sum_values total [] = total
  sum_values total ((k, x) ∷ d) = sum_values (fl.plus total x) d

  -- The drain of a user id: the one that the report gives, or the sum of its parts.
  unfoldable pub add_mah : UidRow F → UidRow F
  add_mah r = elim (get (codes "uid") r.mah_parts) [
    | some x ↦ record r { mah = some x; mah_parts = discard (codes "uid") r.mah_parts }
    | none ↦
        if any r.mah_parts
        then record r { mah = some (sum_values (fl.of_int (pos 0)) r.mah_parts); mah_is_sum = true }
        else r
  ]

  unfoldable pub finish_row : UidRow F → UidRow F
  finish_row row =
      let r = add_mah row in
      record r {
        wakelocks = ranked (λ w. w.partial_ms +ℤ w.full_ms) r.wakelocks;
        procs = ranked (λ p. p.user_ms +ℤ p.system_ms) r.procs;
        jobs = ranked (λ j. j.time_ms) r.jobs;
      }

  unfoldable pub finish_rows : IntDict (UidRow F) → IntDict (UidRow F)
  finish_rows [] = []
  finish_rows ((uid, r) ∷ rs) = (uid, finish_row r) ∷ finish_rows rs

  -- The packages of the section `uid`, put into the rows.
  unfoldable pub name_rows : IntDict (List Text) → Tables F → Tables F
  name_rows [] t = t
  name_rows ((uid, pkgs) ∷ m) t = name_rows m (set_row fl uid (λ r. record r { pkgs = pkgs }) t)

  unfoldable pub parse_checkin : List Text → Tables F
  parse_checkin lines =
      let t = read_lines fl lines (no_tables fl) in
      let u = name_rows t.uid_map t in record u { uids = finish_rows u.uids }

  abbrev pub human_parsed : Prose F → Bool
  human_parsed p = given p.capacity || any p.pkg_mah || any p.device_power

  -- The field `parsed` of the result.
  unfoldable pub is_parsed : Parsed F → Bool
  is_parsed (checkin t) = given t.version || any t.uids || any t.device_power
  is_parsed (human p) = human_parsed p

  -- `none` is a ValueError.
  unfoldable pub parse_batterystats : Text → Option (Parsed F)
  parse_batterystats text =
      let lines = lines_from [] false text in
      let by_checkin : Option (Parsed F) = some (checkin (parse_checkin lines)) in
      if occurs (codes ",pwi,") text || occurs (codes ",vers,") text
      then by_checkin
      else elim (parse_human fl lines) [
        | none ↦ none
        | some p ↦ if human_parsed p then some (human p) else by_checkin
      ]
