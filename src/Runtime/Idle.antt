-- ===== src/Runtime/Idle.antt =====
-- src/ghost_runtime.rs: what the count of idle ticks counts.
use ess_p2p_rs.Shared.{
  ℕ, ◌%◌, ◌==◌, ◌≡◌, refl, ap, ◌∙◌, Bool, ◌&&◌, none, some, List, [], ◌∷◌, ◌++◌, Text, bytes, leb,
  if_either, if◌then◌else◌, unwrap_or,
}
use ess_p2p_rs.Shared.Dict.{Dict}
use ess_p2p_rs.World.{PeerState, update_peers, set_ghost_state}
use ess_p2p_rs.World.Peers.{sync_ghost_from_registry}
use ess_p2p_rs.Health.{GhostHealthSnapshot}
use ess_p2p_rs.Health.Policy.{
  GhostDecision, noop, wake_up, go_to_sleep, send_beacon, start_sync, do_panic, degrade, drop_peer,
  throttle, isolate_peer, retry, reroute, adjust_reputation, SystemEventKind, evaluate_event,
  evaluate_reputation, evaluate_load,
}
use ess_p2p_rs.Runtime.{
  Clock, Env, SinkAction, sink_drop, limit_peer, quarantine_peer, adjust_score, reroute_traffic,
  SchedulerState, GhostRuntimeConfig, GhostRuntime, to_sink, set_world_state, apply_decision,
  is_connection, publish_event, build_real_snapshot, judge_peers, assess_runtime, count_tick,
}
use ess_p2p_rs.Runtime.Ticks.{
  decide_runtime, act_runtime, update_runtime_metrics, begin_tick, scheduler_tick, counted_only,
}

module _ (env : Env) where
  -- What decisions leave alone, and of it what an assessment leaves alone.
  abbrev pub still : GhostRuntime env → SchedulerState × GhostRuntimeConfig env
  still r = (r.scheduler, r.config)

  abbrev pub idles : SchedulerState × GhostRuntimeConfig env → ℕ × GhostRuntimeConfig env
  idles (s, config) = (s.idle_ticks, config)

  still-to_sink :
      (r : GhostRuntime env) (told : List (SinkAction env)) → still (to_sink env r told) ≡ still r
  still-to_sink r told =
      if_either (λ t. still t ≡ still r) r.has_sink (record r { actions = r.actions ++ told }) r
        refl refl

  pub still-set_world_state :
      (r : GhostRuntime env) (state : Text) (now : ℕ)
      → still (set_world_state env r state now) ≡ still r
  still-set_world_state r state now =
      if_either (λ t. still t ≡ still r) r.poisoned r
        (record r { world = set_ghost_state r.world state now }) refl refl

  -- No decision touches the scheduler.
  pub still-apply_decision :
      (r : GhostRuntime env) (d : GhostDecision env.floats) (now : ℕ)
      → still (apply_decision env r d now) ≡ still r
  unfolding apply_decision
  still-apply_decision r noop now = refl
  still-apply_decision r wake_up now = still-set_world_state r (bytes "waking") now
  still-apply_decision r go_to_sleep now = still-set_world_state r (bytes "sleeping") now
  still-apply_decision r send_beacon now = refl
  still-apply_decision r start_sync now = refl
  still-apply_decision r do_panic now = still-set_world_state r (bytes "panic") now
  still-apply_decision r degrade now = still-set_world_state r (bytes "degraded") now
  still-apply_decision r (drop_peer p) now = still-to_sink r (sink_drop p ∷ [])
  still-apply_decision r (throttle p) now = still-to_sink r (limit_peer p ∷ [])
  still-apply_decision r (isolate_peer p) now = still-to_sink r (quarantine_peer p ∷ [])
  still-apply_decision r (retry p) now = refl
  still-apply_decision r (reroute p) now = still-to_sink r (reroute_traffic p [] ∷ [])
  still-apply_decision r (adjust_reputation p delta) now =
      still-to_sink r (adjust_score p delta ∷ [])

  still_if :
      (b : Bool) (r : GhostRuntime env) (d : GhostDecision env.floats) (now : ℕ)
      → still (if b then apply_decision env r d now else r) ≡ still r
  still_if b r d now =
      if_either (λ t. still t ≡ still r) b (apply_decision env r d now) r
        (still-apply_decision r d now) refl

  pub still-publish_event :
      (r : GhostRuntime env) (kind : SystemEventKind env.floats) (now : ℕ)
      → still (publish_event env r kind now) ≡ still r
  unfolding publish_event
  still-publish_event r kind now =
      let d = evaluate_event env.floats r.policy kind in
      still_if (r.config.wake_on_activity && is_connection env kind) (apply_decision env r d now)
        wake_up now
      ∙ still-apply_decision r d now

  still-judge_peers :
      (r : GhostRuntime env) (m : Dict Text PeerState) (now : ℕ)
      → still (judge_peers env r m now) ≡ still r
  unfolding judge_peers
  still-judge_peers r [] now = refl
  still-judge_peers r ((peer_id, p) ∷ m) now =
      let d = evaluate_reputation env.floats r.policy peer_id (env.of_bits p.reputation.score) in
      still-judge_peers (apply_decision env r d now) m now ∙ still-apply_decision r d now

  pub idles-assess_runtime :
      (r : GhostRuntime env) (clock : Clock)
      → idles (still (assess_runtime env r clock)) ≡ idles (still r)
  unfolding assess_runtime
  idles-assess_runtime r clock =
      let marked = set_world_state env r (bytes "assessing") clock.now in
      let judged = judge_peers env marked marked.world.peer_registry clock.now in
      ap idles (
        if_either (λ t. still t ≡ still marked) marked.poisoned marked judged refl
          (still-judge_peers marked marked.world.peer_registry clock.now)
        ∙ still-set_world_state r (bytes "assessing") clock.now)

  pub still-act_runtime : (r : GhostRuntime env) (now : ℕ) → still (act_runtime env r now) ≡ still r
  unfolding act_runtime
  still-act_runtime r now =
      let decided = apply_decision env r (decide_runtime env r) now in
      still-set_world_state decided (bytes "ready") now
      ∙ still-apply_decision r (decide_runtime env r) now

  pub still-update_runtime_metrics :
      (r : GhostRuntime env) (c k t now : ℕ)
      → still (update_runtime_metrics env r c k t now) ≡ still r
  unfolding update_runtime_metrics
  still-update_runtime_metrics r c k t now =
      if_either (λ x. still x ≡ still r) r.poisoned r
        (record r { world = sync_ghost_from_registry (update_peers r.world (c, k, t, t) now) }) refl
        refl

  still-begin_tick :
      (r : GhostRuntime env) (seen : GhostHealthSnapshot) (now : ℕ)
      → still (begin_tick env r seen now) ≡ (count_tick r.scheduler seen.connected_peers, r.config)
  unfolding begin_tick
  still-begin_tick r seen now =
      let counted = record r { scheduler = count_tick r.scheduler seen.connected_peers } in
      let due = (counted.scheduler.tick_count % r.config.sync_every_ticks) == 0 in
      let synced = if due then apply_decision env counted start_sync now else counted in
      let tired =
        leb r.config.sleep_after_idle_ticks counted.scheduler.idle_ticks
        && (seen.connected_peers == 0) in
      let rested = if tired then apply_decision env synced go_to_sleep now else synced in
      still-apply_decision rested (evaluate_load env.floats r.policy seen.connected_peers) now
      ∙ (still_if tired synced go_to_sleep now ∙ still_if due counted start_sync now)

  pub idles-tick :
      (r : GhostRuntime env) (clock : Clock)
      → idles (still (unwrap_or (scheduler_tick env r clock) (counted_only env r clock))) ≡ (
        (count_tick r.scheduler (build_real_snapshot env r clock.ts).connected_peers).idle_ticks,
        r.config,
      )
  unfolding scheduler_tick
  idles-tick r clock =
      let seen = build_real_snapshot env r clock.ts in
      let begun = begin_tick env r seen clock.now in
      let decided = apply_decision env begun (decide_runtime env begun) clock.now in
      let assessed = assess_runtime env decided clock in
      let acted = act_runtime env assessed clock.now in
      let done =
        update_runtime_metrics env acted seen.connected_peers seen.known_peers seen.route_peers
          clock.now in
      if_either
        (λ o.
          idles (still (unwrap_or o (counted_only env r clock)))
          ≡ ((count_tick r.scheduler seen.connected_peers).idle_ticks, r.config))
        (r.config.sync_every_ticks == 0) none (some done) refl
        (ap idles (
            still-update_runtime_metrics acted seen.connected_peers seen.known_peers
              seen.route_peers clock.now
            ∙ still-act_runtime assessed clock.now)
          ∙ (idles-assess_runtime decided clock
              ∙ ap idles (
                  still-apply_decision begun (decide_runtime env begun) clock.now
                  ∙ still-begin_tick r seen clock.now)))
