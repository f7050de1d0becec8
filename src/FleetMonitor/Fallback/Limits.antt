-- ===== src/FleetMonitor/Fallback/Limits.antt =====
-- The times between two fallback heals.
use stayturgid.Base.{IsSpaced, ℕ, Bool, true, false, List, arith}
use stayturgid.FleetMonitor.Stamps.{Device, Action, run_cf_agent, run_firerpa_heal, Result}
use stayturgid.FleetMonitor.Heal.Limits.{IsLimited, times, times-IsSpaced, any}
use stayturgid.FleetMonitor.Fallback.{
  fallback_cooldown_sec, try_cf_runagent_repair, try_firerpa_heal_fallback,
}

abbrev pub is_fallback : Action → Bool
is_fallback run_cf_agent = true
is_fallback run_firerpa_heal = true
is_fallback other = false

-- Whether the address is known, the port answers, and cf-runagent has its file.
abbrev pub Reach : Type 0
Reach = Bool × Bool × Bool

abbrev pub cf_step : Reach → ℕ → Device → Result
cf_step (known, answers, config) now s = try_cf_runagent_repair known answers config now s

abbrev pub firerpa_step : Reach → ℕ → Device → Result
firerpa_step (known, answers, config) now s = try_firerpa_heal_fallback known answers now s

cf-IsLimited : IsLimited cf_step (any is_fallback) (λ s. s.cf_heal) fallback_cooldown_sec
unfolding try_cf_runagent_repair
cf-IsLimited (known, answers, config) now s = ground arith

firerpa-IsLimited :
    IsLimited firerpa_step (any is_fallback) (λ s. s.firerpa_heal) fallback_cooldown_sec
unfolding try_firerpa_heal_fallback
firerpa-IsLimited (known, answers, config) now s = ground arith

-- The runs of cf-runagent are at least 30 minutes apart, and so are the heals by FIRERPA.
pub fallbacks-IsSpaced :
    (ps : List (Reach × ℕ)) (s : Device)
    → IsSpaced 1800 (times cf_step (any is_fallback) ps s)
      × IsSpaced 1800 (times firerpa_step (any is_fallback) ps s)
fallbacks-IsSpaced ps s = (
  times-IsSpaced cf_step (any is_fallback) (λ t. t.cf_heal) fallback_cooldown_sec cf-IsLimited ps s,
  times-IsSpaced firerpa_step (any is_fallback) (λ t. t.firerpa_heal) fallback_cooldown_sec
      firerpa-IsLimited ps s,
)
