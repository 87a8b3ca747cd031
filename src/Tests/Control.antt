-- ===== src/Tests/Control.antt =====
-- src/control_loop.rs on a violation, and on checks of the epoch.
use ess_p2p_rs.Shared.{ℕ, ◌≡◌, refl, true, false, none, some, List, [], bytes}
use ess_p2p_rs.Shared.Order.{text_ord}
use ess_p2p_rs.Authority.{default_state}
use ess_p2p_rs.World.{new}
use ess_p2p_rs.Ghost.{GhostCommand, spawn, default_config, same, zeroized}
use ess_p2p_rs.Ghost.Loop.{run_loop}
use ess_p2p_rs.Runtime.{default_runtime_config, spawn_ghost_runtime}
use ess_p2p_rs.Control.{ControlLoop, on_rotation_check_tick}
use ess_p2p_rs.Control.Violation.{arrivals}
use ess_p2p_rs.Control.Enforce.{Gate, enforce_peer, handle_all, refused_wipes}
use ess_p2p_rs.Security.Policy
use ess_p2p_rs.Security.Policy.{
  PolicyInner, policy_is_allowed, default_config as default_policy_config,
}
use ess_p2p_rs.Security.Policy.Access.{verify_access}
use ess_p2p_rs.Shared.Dict.{lookup, add, insert}
use ess_p2p_rs.Tests.Node.{crypto, env, clock}

abbrev control : ControlLoop env
control = record {
  runtime =
      spawn_ghost_runtime env (bytes "n") (bytes "client") (default_runtime_config env)
        (new crypto default_state none 5);
  has_world = true;
  last_rotation_epoch = 0;
  calls = [];
  logged = [];
}

-- The policy opens the action, but has no authority that grants it to the peer.
abbrev policy : PolicyInner ℕ
policy = record (Policy.new (bytes "n")) {
  policy_config = record default_policy_config { allowed_actions = add (bytes "connect") [] };
}

abbrev gate : Gate ℕ
gate = record { reputation = []; security = some policy; authority = none }

refused_wipes_example :
    (sent : List GhostCommand) × ((enforce_peer env gate (bytes "a") 7).0 ≡ false)
    × ((handle_all env control (enforce_peer env gate (bytes "a") 7).1 clock).runtime.commands
        ≡ sent)
    × (same
          (run_loop
            (spawn (bytes "n") (bytes "client") (default_config 10) true)
            (arrivals 7 7000 sent)).state
          zeroized
        ≡ true)
unfolding lookup policy_is_allowed verify_access insert
refused_wipes_example =
    refused_wipes env gate policy (bytes "a") 7 control clock
      (spawn (bytes "n") (bytes "client") (default_config 10) true) 7 7000 refl refl refl refl

second_day :
    (on_rotation_check_tick env control
      (record { now = 86400; ts = bytes "t" })).last_rotation_epoch
    ≡ 1
unfolding on_rotation_check_tick
second_day = refl
