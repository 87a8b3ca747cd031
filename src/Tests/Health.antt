-- ===== src/Tests/Health.antt =====
-- src/ghost_health.rs and src/ghost_policy.rs on concrete nodes.
use ess_p2p_rs.Shared.{◌≡◌, ◌↔◌, refl, true, Text, bytes}
use ess_p2p_rs.Ghost.{idle}
use ess_p2p_rs.Health.{GhostHealthSnapshot, default_snapshot, health_score, assess}
use ess_p2p_rs.Health.Policy.{default_policy, do_panic, decide_health}
use ess_p2p_rs.Health.Decisions.{IsDoomed, decide_health-IsDoomed}
use ess_p2p_rs.Tests.Node.{floats}

abbrev trim : Text → Text
trim s = s

-- A supernode with peers and a gateway.
abbrev well : GhostHealthSnapshot
well = record default_snapshot {
  role = bytes "SuperNode";
  connected_peers = 3;
  gateway_ok = true;
  config_ok = true;
}

well_score : health_score trim well ≡ 90
unfolding health_score
well_score = refl

-- A client that has just started is told to panic.
new_client :
    decide_health floats (default_policy floats) idle (assess trim default_snapshot idle) ≡ do_panic
unfolding decide_health assess
new_client = refl

decide_health-IsDoomed_example :
    (decide_health floats (default_policy floats) idle (assess trim well idle) ≡ do_panic)
    ↔ IsDoomed trim well
decide_health-IsDoomed_example = decide_health-IsDoomed trim floats well idle
