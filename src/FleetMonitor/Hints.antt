-- ===== src/FleetMonitor/Hints.antt =====
-- `log_issue_hints` of control/bin/fleet_health_monitor.py.
pub mod Once
use stayturgid.Base.{Bool, List, [], ◌∷◌, ◌++◌, Text, codes, member, text_eq, if◌then◌else◌}
use stayturgid.Base.{sorted_set}
use stayturgid.FleetMonitor.Stamps.{Device, Action, hint_logged, hint_cleared, Result}

-- The keys of `ISSUE_HINTS`.
abbrev pub is_hinted : Text → Bool
is_hinted issue = text_eq issue (codes "shizuku_auth_unanswered")

unfoldable pub hinted : List Text → List Text
hinted [] = []
hinted (i ∷ is) = let rest = hinted is in if is_hinted i then i ∷ rest else rest

-- The difference of two sets.
unfoldable pub minus : List Text → List Text → List Text
minus [] ys = []
minus (x ∷ xs) ys = let rest = minus xs ys in if member x ys then rest else x ∷ rest

abbrev pub log_hints : List Text → List Action
log_hints [] = []
log_hints (i ∷ is) = hint_logged i ∷ log_hints is

abbrev pub log_cleared : List Text → List Action
log_cleared [] = []
log_cleared (i ∷ is) = hint_cleared i ∷ log_cleared is

unfoldable pub log_issue_hints : List Text → Device → Result
unfolding hinted minus
log_issue_hints issues s =
    let now = sorted_set (hinted issues) in
    (
      record s { hints = now },
      log_hints (minus now s.hints) ++ log_cleared (sorted_set (minus s.hints now)),
    )
