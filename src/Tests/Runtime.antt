-- ===== src/Tests/Runtime.antt =====
-- src/ghost_runtime.rs on a node without peers.
use ess_p2p_rs.Shared.{◌≡◌, ◌+◌, refl, true, none, some, List, [], ◌∷◌, bytes}
use ess_p2p_rs.Authority.{default_state}
use ess_p2p_rs.Shared.Order.{text_ord}
use ess_p2p_rs.Ghost.{observe_signal, trigger_panic}
use ess_p2p_rs.World.{new}
use ess_p2p_rs.Health.Policy.{default_policy, go_to_sleep, peer_connected}
use ess_p2p_rs.Runtime.{
  Clock, GhostRuntime, GhostRuntimeConfig, default_runtime_config, spawn_ghost_runtime,
  build_real_snapshot, assess_runtime,
}
use ess_p2p_rs.Runtime.Ticks.{scheduler_tick, act_runtime}
use ess_p2p_rs.Runtime.Run.{Op, step, tick, publish, apply_now, change_policy, run_ops}
use ess_p2p_rs.Runtime.Calm.{never_panics}
use ess_p2p_rs.Runtime.Calmness.{NoPanic}
use ess_p2p_rs.Runtime.Streak.{streak, found, peers_found, is_due, idle_sleeps}
use ess_p2p_rs.Runtime.Sleeps.{sleeps, one_if}
use ess_p2p_rs.Runtime.Poisoned.{poisoned_panics}
use ess_p2p_rs.Tests.Node.{crypto, floats, env, clock}

-- It sleeps after two ticks in a row without peers.
abbrev drowsy : GhostRuntimeConfig env
drowsy = record (default_runtime_config env) { sleep_after_idle_ticks = 2 }

abbrev started : GhostRuntime env
started =
    spawn_ghost_runtime env (bytes "n") (bytes "client") drowsy (new crypto default_state none 5)

never_panics_example :
    NoPanic
      (run_ops env started (
        (tick, clock)
        ∷ (publish (peer_connected (bytes "a")), clock)
        ∷ (change_policy (default_policy floats), clock)
        ∷ [])).commands
never_panics_example =
    never_panics env (bytes "n") (bytes "client") drowsy (new crypto default_state none 5)
      ((tick, clock)
        ∷ (publish (peer_connected (bytes "a")), clock)
        ∷ (change_policy (default_policy floats), clock)
        ∷ [])
      (refl, (refl, (refl, tt)))

abbrev quiet_hours : List (Op env × Clock)
quiet_hours =
    (tick, clock)
    ∷ (publish (peer_connected (bytes "a")), clock)
    ∷ (apply_now go_to_sleep, clock)
    ∷ []

second_tick_due :
    is_due env drowsy
      (found env started quiet_hours [])
      (peers_found env (run_ops env started quiet_hours) clock)
    ≡ true
unfolding streak found build_real_snapshot run_ops step new
second_tick_due = refl

idle_sleeps_example :
    (t : GhostRuntime env) × (scheduler_tick env (run_ops env started quiet_hours) clock ≡ some t)
    × (sleeps t.commands
        ≡ sleeps (run_ops env started quiet_hours).commands
          + one_if (
              is_due env drowsy
                (found env started quiet_hours [])
                (peers_found env (run_ops env started quiet_hours) clock)))
idle_sleeps_example =
    idle_sleeps env (bytes "n") (bytes "client") drowsy (new crypto default_state none 5)
      quiet_hours clock (refl, (refl, (refl, tt))) refl

poisoned_panics_example :
    (act_runtime env (assess_runtime env (record started { poisoned = true }) clock) 8).commands
    ≡ observe_signal (bytes "ghost:assess:isolated_node")
      ∷ trigger_panic (bytes "autonomous_panic")
      ∷ []
poisoned_panics_example = poisoned_panics env (record started { poisoned = true }) clock 8 refl refl
