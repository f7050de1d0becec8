-- ===== src/Lease/Env.antt =====
-- The environment that the lease functions read: variables, process and host.
-- An unset variable is the empty text, which the source's `or` and `get(..., "")` treat alike.
use stayturgid.Base.{ℕ, Bool, ◌||◌, List, [], ◌∷◌, Text, codes, or_else, member, lower, strip}

pub record Env : Type 0 where
  pub screen_project : Text
  pub stayturgid_project : Text
  pub screen_agent : Text
  pub stayturgid_agent : Text
  pub screen_force : Text
  pub stayturgid_force : Text
  pub pid : ℕ
  pub hostname : Text
  -- what `uuid.uuid4()` returns
  pub fresh_id : Text

abbrev pub default_project : Text
default_project = codes "stayturgid"

unfoldable pub project_id : Env → Text
project_id env =
    or_else (strip (or_else env.screen_project (or_else env.stayturgid_project default_project)))
      default_project

unfoldable pub agent_id : Env → Text
agent_id env =
    or_else (strip (or_else env.screen_agent (or_else env.stayturgid_agent (codes "Auto"))))
      (codes "Auto")

abbrev truths : List Text
truths = codes "1" ∷ codes "true" ∷ codes "yes" ∷ []

unfoldable pub force_acquire : Env → Bool
force_acquire env =
    member (lower env.screen_force) truths || member (lower env.stayturgid_force) truths
