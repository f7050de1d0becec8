-- ===== src/FleetHealth/Examples.antt =====
-- Reports of two probes.
use stayturgid.Base.{[], ◌∷◌, Text, codes}
use stayturgid.FleetHealth.Report.{Report}

abbrev marked : Text
marked = codes "DEVLOG_AGENT|runtime=down"

abbrev sick : Report
sick = (codes "sshd", codes "down") ∷ (codes "agent_heartbeat_age", codes "500") ∷ []
