-- ===== src/Runtime/Ticks.antt =====
-- src/ghost_runtime.rs: what the runtime decides, what it does on a tick, and its handle.
use ess_p2p_rs.Shared.{
  ℕ, ◌%◌, ◌==◌, ◌&&◌, Option, none, some, [], ◌∷◌, ◌++◌, bytes, leb, if◌then◌else◌,
}
use ess_p2p_rs.Ghost.Render.{decimal}
use ess_p2p_rs.Ghost.{idle, zeroize, update_metrics, observe_signal}
use ess_p2p_rs.World.{update_peers}
use ess_p2p_rs.World.Peers.{sync_ghost_from_registry}
use ess_p2p_rs.Health.{GhostHealthSnapshot, GhostHealthAssessment}
use ess_p2p_rs.Health.Policy.{
  GhostPolicy, GhostDecision, noop, go_to_sleep, start_sync, decide_health, evaluate_load,
}
use ess_p2p_rs.Runtime.{
  apply_decision, set_world_state, command, assess_runtime, build_real_snapshot, GhostRuntime,
  Clock, count_tick, Env,
}

module _ (env : Env) where
  unfoldable pub decide_on :
      GhostPolicy env.floats → Option GhostHealthAssessment → GhostDecision env.floats
  unfolding decide_health
  decide_on policy none = noop
  decide_on policy (some a) = decide_health env.floats policy idle a

  unfoldable pub decide_runtime : GhostRuntime env → GhostDecision env.floats
  unfolding decide_on
  decide_runtime r = decide_on r.policy r.scheduler.last_assessment

  unfoldable pub act_runtime : GhostRuntime env → ℕ → GhostRuntime env
  unfolding decide_runtime apply_decision
  act_runtime r now =
      set_world_state env (apply_decision env r (decide_runtime r) now) (bytes "ready") now

  unfoldable pub update_runtime_metrics : GhostRuntime env → ℕ → ℕ → ℕ → ℕ → GhostRuntime env
  unfolding update_peers sync_ghost_from_registry
  update_runtime_metrics r c k t now =
      let counted = if r.poisoned then r else record r {
        world = sync_ghost_from_registry (update_peers r.world (c, k, t, t) now);
      } in
      command env counted (update_metrics c k t ∷ [])

  -- The steps of a tick up to the decision.
  unfoldable pub begin_tick : GhostRuntime env → GhostHealthSnapshot → ℕ → GhostRuntime env
  unfolding apply_decision evaluate_load
  begin_tick r seen now =
      let counted = record r { scheduler = count_tick r.scheduler seen.connected_peers } in
      let synced =
        if (counted.scheduler.tick_count % r.config.sync_every_ticks) == 0
        then apply_decision env counted start_sync now
        else counted in
      let rested =
        if leb r.config.sleep_after_idle_ticks counted.scheduler.idle_ticks
          && (seen.connected_peers == 0)
        then apply_decision env synced go_to_sleep now
        else synced in
      apply_decision env rested (evaluate_load env.floats r.policy seen.connected_peers) now

  -- It panics if it is to sync every zero ticks.
  unfoldable pub scheduler_tick : GhostRuntime env → Clock → Option (GhostRuntime env)
  unfolding begin_tick decide_runtime assess_runtime act_runtime update_runtime_metrics
  scheduler_tick r clock =
      let seen = build_real_snapshot env r clock.ts in
      let begun = begin_tick r seen clock.now in
      let decided = apply_decision env begun (decide_runtime begun) clock.now in
      let acted = act_runtime (assess_runtime env decided clock) clock.now in
      if r.config.sync_every_ticks == 0
      then none
      else some (
          update_runtime_metrics acted seen.connected_peers seen.known_peers seen.route_peers
            clock.now)

  abbrev pub health : GhostRuntime env → GhostHealthSnapshot → GhostRuntime env
  health r seen =
      command env r
        (observe_signal (bytes "health_check:peers=" ++ decimal seen.connected_peers) ∷ [])

  abbrev pub zeroize_runtime : GhostRuntime env → ℕ → GhostRuntime env
  zeroize_runtime r now = command env (set_world_state env r (bytes "zeroized") now) (zeroize ∷ [])

  abbrev pub policy_update : GhostRuntime env → GhostPolicy env.floats → Clock → GhostRuntime env
  policy_update r policy clock = assess_runtime env (record r { policy = policy }) clock

  -- What a tick that panics leaves.
  abbrev pub counted_only : GhostRuntime env → Clock → GhostRuntime env
  counted_only r clock = record r {
    scheduler = count_tick r.scheduler (build_real_snapshot env r clock.ts).connected_peers;
  }
