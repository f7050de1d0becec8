-- ===== src/FleetMonitor/Fallback.antt =====
-- `_try_cf_runagent_repair` and `_try_firerpa_heal_fallback` of control/bin/fleet_health_monitor.py,
-- the heals of a phone that neither adb nor ssh reaches.
pub mod Limits
use stayturgid.Base.{ℕ, ◌*◌, Bool, not, some, [], ◌∷◌, if◌then◌else◌}
use stayturgid.FleetMonitor.Stamps.{Device, run_cf_agent, run_firerpa_heal, cooldown_ok, Result}

abbrev pub fallback_cooldown_sec : ℕ
fallback_cooldown_sec = 30 * 60

-- `known` is an address in the tailnet, `answers` that its port does, `config` the file of cf-runagent.
-- The stamp comes first, so that a missing file is rate limited too.
unfoldable pub try_cf_runagent_repair : Bool → Bool → Bool → ℕ → Device → Result
try_cf_runagent_repair known answers config now s =
    if not known
    then (s, [])
    else if not answers
    then (s, [])
    else if not (cooldown_ok s.cf_heal now fallback_cooldown_sec)
    then (s, [])
    else (record s { cf_heal = some now }, if config then run_cf_agent ∷ [] else [])

unfoldable pub try_firerpa_heal_fallback : Bool → Bool → ℕ → Device → Result
try_firerpa_heal_fallback known answers now s =
    if not known
    then (s, [])
    else if not answers
    then (s, [])
    else if not (cooldown_ok s.firerpa_heal now fallback_cooldown_sec)
    then (s, [])
    else (record s { firerpa_heal = some now }, run_firerpa_heal ∷ [])
