-- ===== src/Runtime/Calm.antt =====
-- src/ghost_runtime.rs: a runtime that can read the world never panics the engine of itself.
use ess_p2p_rs.Shared.{
  ℕ, ◌%◌, ◌==◌, ◌≡◌, refl, Bool, true, false, not, ◌&&◌, none, some, List, [], ◌∷◌, ◌++◌, Text,
  bytes, leb, unwrap_or, if_either, arith, if◌then◌else◌,
}
use ess_p2p_rs.Ghost.Render.{decimal}
use ess_p2p_rs.Ghost.{observe_signal, set_tamper, zeroize, update_metrics}
use ess_p2p_rs.World.{WorldState, update_peers}
use ess_p2p_rs.World.Peers.{sync_ghost_from_registry}
use ess_p2p_rs.Health.{GhostHealthSnapshot}
use ess_p2p_rs.Health.Policy.{
  GhostDecision, wake_up, go_to_sleep, send_beacon, start_sync, evaluate_load,
}
use ess_p2p_rs.Health.Decisions.{is_panic}
use ess_p2p_rs.Runtime.Run.{
  Op, step, run_ops, tick, publish, apply_now, assess_now, act_now, sync_now, beacon_now,
  zeroize_now, sleep_now, wake_now, report, metrics, signal, tamper, change_policy, set_sink,
  world_becomes, world_poisoned,
}
use ess_p2p_rs.Runtime.Tame.{load_no_panic}
use ess_p2p_rs.Runtime.{
  Clock, Env, GhostRuntimeConfig, GhostRuntime, set_world_state, apply_decision,
  build_real_snapshot, assess_runtime, count_tick, spawn_ghost_runtime,
}
use ess_p2p_rs.Runtime.Ticks.{
  decide_runtime, act_runtime, update_runtime_metrics, begin_tick, scheduler_tick, counted_only,
}
use ess_p2p_rs.Runtime.Calmness.{
  NoPanic, IsCalm, command-IsCalm, world-IsCalm, set_world_state-IsCalm, apply_decision-IsCalm,
  publish_event-IsCalm, assess_runtime-IsCalm, decided-IsCalm, act_runtime-IsCalm,
}

module _ (env : Env) where
  update_runtime_metrics-IsCalm :
      (r : GhostRuntime env) (c k t now : ℕ)
      → IsCalm env r
      → IsCalm env (update_runtime_metrics env r c k t now)
  unfolding update_runtime_metrics
  update_runtime_metrics-IsCalm r c k t now calm =
      let w = sync_ghost_from_registry (update_peers r.world (c, k, t, t) now) in
      command-IsCalm env (if r.poisoned then r else record r { world = w })
        (update_metrics c k t ∷ []) (refl, tt)
        (if_either (IsCalm env) r.poisoned r (record r { world = w }) calm
          (world-IsCalm env r w calm))

  pub counted-IsCalm :
      (r : GhostRuntime env) (peers : ℕ)
      → IsCalm env r
      → IsCalm env (record r { scheduler = count_tick r.scheduler peers })
  counted-IsCalm r peers c = record { sound = c.sound; tame = c.tame; quiet = c.quiet }

  maybe-IsCalm :
      (b : Bool) (r : GhostRuntime env) (d : GhostDecision env.floats) (now : ℕ)
      → is_panic env.trim env.floats d ≡ false
      → IsCalm env r
      → IsCalm env (if b then apply_decision env r d now else r)
  maybe-IsCalm b r d now h c =
      if_either (IsCalm env) b (apply_decision env r d now) r
        (apply_decision-IsCalm env r d now h c) c

  pub begin_tick-IsCalm :
      (r : GhostRuntime env) (seen : GhostHealthSnapshot) (now : ℕ)
      → IsCalm env r
      → IsCalm env (begin_tick env r seen now)
  unfolding begin_tick
  begin_tick-IsCalm r seen now c =
      let counted = record r { scheduler = count_tick r.scheduler seen.connected_peers } in
      let due = (counted.scheduler.tick_count % r.config.sync_every_ticks) == 0 in
      let synced = if due then apply_decision env counted start_sync now else counted in
      let tired =
        leb r.config.sleep_after_idle_ticks counted.scheduler.idle_ticks
        && (seen.connected_peers == 0) in
      let rested = if tired then apply_decision env synced go_to_sleep now else synced in
      apply_decision-IsCalm env rested (evaluate_load env.floats r.policy seen.connected_peers) now
        (load_no_panic env r.policy seen.connected_peers)
        (maybe-IsCalm tired synced go_to_sleep now refl
          (maybe-IsCalm due counted start_sync now refl (counted-IsCalm r seen.connected_peers c)))

  tick-IsCalm :
      (r : GhostRuntime env) (clock : Clock)
      → IsCalm env r
      → IsCalm env (unwrap_or (scheduler_tick env r clock) (counted_only env r clock))
  unfolding scheduler_tick
  tick-IsCalm r clock c =
      let seen = build_real_snapshot env r clock.ts in
      let begun = begin_tick env r seen clock.now in
      let decided = apply_decision env begun (decide_runtime env begun) clock.now in
      let assessed = assess_runtime env decided clock in
      let acted = act_runtime env assessed clock.now in
      let done =
        update_runtime_metrics env acted seen.connected_peers seen.known_peers seen.route_peers
          clock.now in
      let c1 = decided-IsCalm env begun clock.now (begin_tick-IsCalm r seen clock.now c) in
      let c2 =
        act_runtime-IsCalm env assessed clock.now (assess_runtime-IsCalm env decided clock c1) in
      let c3 =
        update_runtime_metrics-IsCalm acted seen.connected_peers seen.known_peers seen.route_peers
          clock.now c2 in
      if_either (λ o. IsCalm env (unwrap_or o (counted_only env r clock)))
        (r.config.sync_every_ticks == 0) none (some done) (counted-IsCalm r seen.connected_peers c)
        c3

  -- Any operation but a poisoning of the world's lock and the decision to panic itself.
  abbrev pub leaves_sound : Op env → Bool
  leaves_sound world_poisoned = false
  leaves_sound (apply_now d) = not (is_panic env.trim env.floats d)
  leaves_sound o = true

  step-IsCalm :
      (r : GhostRuntime env) (o : Op env) (clock : Clock)
      → leaves_sound o ≡ true
      → IsCalm env r
      → IsCalm env (step env r o clock)
  unfolding step
  step-IsCalm r tick clock h c = tick-IsCalm r clock c
  step-IsCalm r (publish kind) clock h c = publish_event-IsCalm env r kind clock.now c
  step-IsCalm r (apply_now d) clock h c =
      apply_decision-IsCalm env r d clock.now (ground (arith, h)) c
  step-IsCalm r assess_now clock h c = assess_runtime-IsCalm env r clock c
  step-IsCalm r act_now clock h c = act_runtime-IsCalm env r clock.now c
  step-IsCalm r sync_now clock h c = apply_decision-IsCalm env r start_sync clock.now refl c
  step-IsCalm r beacon_now clock h c = apply_decision-IsCalm env r send_beacon clock.now refl c
  step-IsCalm r zeroize_now clock h c =
      command-IsCalm env (set_world_state env r (bytes "zeroized") clock.now) (zeroize ∷ [])
        (refl, tt) (set_world_state-IsCalm env r (bytes "zeroized") clock.now c)
  step-IsCalm r sleep_now clock h c = apply_decision-IsCalm env r go_to_sleep clock.now refl c
  step-IsCalm r wake_now clock h c = apply_decision-IsCalm env r wake_up clock.now refl c
  step-IsCalm r (report seen) clock h c =
      command-IsCalm env r
        (observe_signal (bytes "health_check:peers=" ++ decimal seen.connected_peers) ∷ [])
        (refl, tt) c
  step-IsCalm r (metrics a k t) clock h c = update_runtime_metrics-IsCalm r a k t clock.now c
  step-IsCalm r (signal s) clock h c = command-IsCalm env r (observe_signal s ∷ []) (refl, tt) c
  step-IsCalm r (tamper b) clock h c = command-IsCalm env r (set_tamper b ∷ []) (refl, tt) c
  step-IsCalm r (change_policy p) clock h c =
      assess_runtime-IsCalm env (record r { policy = p }) clock
        (record { sound = c.sound; tame = c.tame; quiet = c.quiet })
  step-IsCalm r set_sink clock h c = record { sound = c.sound; tame = c.tame; quiet = c.quiet }
  step-IsCalm r (world_becomes w) clock h c = world-IsCalm env r w c
  step-IsCalm r world_poisoned clock h c = ground (arith, h)

  abbrev pub AllSound : List (Op env × Clock) → Type 0
  AllSound [] = Unit {0}
  AllSound (o ∷ ops) = (leaves_sound o.0 ≡ true) × AllSound ops

  pub run_ops-IsCalm :
      (r : GhostRuntime env) (ops : List (Op env × Clock))
      → AllSound ops
      → IsCalm env r
      → IsCalm env (run_ops env r ops)
  unfolding run_ops
  run_ops-IsCalm r [] h c = c
  run_ops-IsCalm r ((o, clock) ∷ ops) h c =
      run_ops-IsCalm (step env r o clock) ops h.1 (step-IsCalm r o clock h.0 c)

  -- Whatever a new runtime is asked for, whatever the world becomes and whatever policies it gets,
  -- it never tells the engine to panic, as long as nobody poisons the world's lock and nobody asks
  -- it to apply the decision to panic itself.
  pub never_panics :
      (node_id role : Text) (config : GhostRuntimeConfig env) (w : WorldState)
      (ops : List (Op env × Clock))
      → AllSound ops
      → NoPanic (run_ops env (spawn_ghost_runtime env node_id role config w) ops).commands
  never_panics node_id role config w ops h =
      (run_ops-IsCalm (spawn_ghost_runtime env node_id role config w) ops h
        (record { sound = refl; tame = tt; quiet = tt })).quiet
