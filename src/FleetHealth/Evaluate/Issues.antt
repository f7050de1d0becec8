-- ===== src/FleetHealth/Evaluate/Issues.antt =====
-- The list of the issues.
use stayturgid.Base.{
  IsSorted, sorted_set-IsSorted, member-sorted_set, ◌≡◌, refl, ◌∙◌, ℕ, Bool, false, ◌||◌, ◌&&◌,
  List, [], ◌∷◌, arith, Text, codes, text_eq, member,
}
use stayturgid.FleetHealth.Report.{Report}
use stayturgid.FleetHealth.Evaluate.{
  Check, checks, failing, evaluate_health, heartbeat_age, agent_heartbeat_fresh_sec, at_least,
  is_absent,
}

-- Some test with this tag holds.
abbrev pub fails : Text → List Check → Bool
fails t [] = false
fails t ((holds, tag) ∷ cs) = text_eq tag t && holds || fails t cs

member-failing : (t : Text) (cs : List Check) → member t (failing cs) ≡ fails t cs
unfolding failing
member-failing t [] = refl
member-failing t ((holds, tag) ∷ cs) = ground (arith, member-failing t cs)

member-evaluate_health :
    (t : Text) (missing : ℕ) (r : Report)
    → member t (evaluate_health missing r) ≡ fails t (checks missing r)
unfolding evaluate_health
member-evaluate_health t missing r =
    member-sorted_set t (failing (checks missing r)) ∙ member-failing t (checks missing r)

-- The issues come in strictly increasing order, so none twice.
pub evaluate_health-IsSorted : (missing : ℕ) (r : Report) → IsSorted (evaluate_health missing r)
unfolding evaluate_health
evaluate_health-IsSorted missing r = sorted_set-IsSorted (failing (checks missing r))

-- The agent is missing if the heartbeat's age is no number, stale if it is at least seven minutes,
-- and neither if it is less.
pub agent_issues :
    (missing : ℕ) (r : Report)
    → let issues = evaluate_health missing r in
      (member (codes "agent_missing") issues ≡ is_absent (heartbeat_age r))
      × (member (codes "agent_stale") issues ≡ at_least agent_heartbeat_fresh_sec (heartbeat_age r))
agent_issues missing r = (
  member-evaluate_health (codes "agent_missing") missing r ∙ (unfold checks in ground arith),
  member-evaluate_health (codes "agent_stale") missing r ∙ (unfold checks in ground arith),
)
