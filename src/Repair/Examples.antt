-- ===== src/Repair/Examples.antt =====
-- Runs of the repair pass.
use stayturgid.Base.{
  ℕ, ◌≡◌, refl, true, false, some, List, [], ◌∷◌, All, Text, codes, if◌then◌else◌,
}
use stayturgid.BatteryUse.Report.{occurs}
use stayturgid.Repair.Errors.{Strptime, Pass}
use stayturgid.Repair.Errors.Limited.{results, IsLimited, results-IsLimited}
use stayturgid.Repair.Profiles.{
  Profile, lines, absent, is_broken, path_line, any_file, up, skip, ensure_shell_profile_path,
}
use stayturgid.Repair.Profiles.Settled.{IsSound, ensure_shell_profile_path-twice}
use stayturgid.Repair.Tailscale.{Device, ensure_tailscale}
use stayturgid.Repair.Tailscale.Honest.{IsHonest, ensure_tailscale-IsHonest}

-- Every line of the log has one time.
abbrev at_nine : Strptime
at_nine s = some 900

abbrev errors : List Text
errors =
    codes "2026-10-04 09:00:00 [repair] ERR: a"
    ∷ codes "2026-10-04 09:00:00 [repair] ERR: b"
    ∷ codes "2026-10-04 09:00:00 [repair] ERR: c"
    ∷ []

abbrev pass_at : ℕ → Pass
pass_at now = record {
  now = now;
  log = some errors;
  has_tapi = true;
  removal_ok = true;
  can_remove = true;
  can_write = true;
}

results-IsLimited_example :
    IsLimited (some 100) (results at_nine (pass_at 4000 ∷ pass_at 4300 ∷ []) (some 100))
results-IsLimited_example =
    results-IsLimited at_nine (pass_at 4000 ∷ pass_at 4300 ∷ []) (some 100)
      ((refl, refl), ((refl, refl), tt))

abbrev termux : Text
termux = codes "/usr"

abbrev profiles : List Profile
profiles =
    absent
    ∷ lines (codes "alias l=ls" ∷ codes "export PATH=/opt/homebrew/bin:$PATH" ∷ []) true
    ∷ absent
    ∷ []

ensure_shell_profile_path-twice_example :
    All IsSound (ensure_shell_profile_path termux profiles).0
    × (ensure_shell_profile_path termux (ensure_shell_profile_path termux profiles).0 ≡ (
      (ensure_shell_profile_path termux profiles).0,
      if any_file (ensure_shell_profile_path termux profiles).0 then up else skip,
    ))
unfolding is_broken path_line occurs
ensure_shell_profile_path-twice_example =
    ensure_shell_profile_path-twice termux profiles refl (tt, (refl, (tt, tt)))

abbrev phone : Device
phone = record {
  enabled = true;
  installed = true;
  app = codes "com.tailscale.ipn";
  lockdown = codes "0";
  runtime_up = λ i. false;
}

ensure_tailscale-IsHonest_example : IsHonest phone true (ensure_tailscale phone true)
ensure_tailscale-IsHonest_example = ensure_tailscale-IsHonest phone true
