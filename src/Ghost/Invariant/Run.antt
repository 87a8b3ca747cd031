-- ===== src/Ghost/Invariant/Run.antt =====
-- src/ghost.rs: the invariant over cycles, inputs and runs.
use ess_p2p_rs.Shared.{
  ℕ, ◌≡◌, refl, Bool, false, inl, inr, some, List, [], ◌∷◌, ◌++◌, Text, bytes, length, Bool-cases,
  arith,
}
use ess_p2p_rs.Ghost.{
  sleep, wake, zeroized, same, GhostConfig, GhostEngine, CycleTrigger, spawn, GhostCommand,
  cmd_wake, event, log, cmd_sleep, enqueue_sync, trigger_sync, trigger_beacon, trigger_panic,
  zeroize, update_metrics, set_tamper, observe_signal, wake_up, force_sync, force_beacon, panic_now,
  manual, pulse, sync_tick,
}
use ess_p2p_rs.Ghost.Render.{decimal}
use ess_p2p_rs.Ghost.Engine.{send, transition, publish, assess, decide}
use ess_p2p_rs.Ghost.Actions.{perform_zeroize, act_all, publish_reasons, run_cycle}
use ess_p2p_rs.Ghost.Loop.{
  bool_text, Arrival, beacon_tick, sync_interval_tick, command, closed, obey, on_beacon_tick,
  on_sync_tick, handle, run_loop, run,
}
use ess_p2p_rs.Ghost.Invariant.{
  IsSafe, transition-IsSafe, perform_zeroize-IsSafe, after_active_pulse-IsSafe, publish-IsSafe,
  act_all-IsSafe, publish_reasons-IsSafe,
}

module _ (c : GhostConfig) where
  run_cycle-IsSafe :
      (e : GhostEngine) (trigger : CycleTrigger) (now now_ms : ℕ)
      → IsSafe c e
      → IsSafe c (run_cycle e trigger now now_ms)
  unfolding run_cycle
  run_cycle-IsSafe e trigger now now_ms v =
      let assessed = publish_reasons e now (assess e).reasons in
      let assessed-IsSafe = publish_reasons-IsSafe c e now (assess e).reasons v in
      let decisions = decide e (assess e).health trigger in
      let acted = act_all assessed decisions now now_ms in
      let acted-IsSafe =
        after_active_pulse-IsSafe c acted now
          (act_all-IsSafe c assessed decisions now now_ms assessed-IsSafe) in
      ground (arith, assessed-IsSafe, acted-IsSafe)

  pub obey-IsSafe :
      (e : GhostEngine) (command : GhostCommand) (now now_ms : ℕ)
      → IsSafe c e
      → IsSafe c (obey e command now now_ms)
  unfolding obey
  obey-IsSafe e cmd_wake now now_ms v =
      let renewed = record e { wake_cycles_left = e.config.idle_to_sleep_after_cycles } in
      let renewed-IsSafe : IsSafe c renewed = ground arith in
      let woken-IsSafe = transition-IsSafe c renewed wake (inl refl) renewed-IsSafe in
      ground (arith, run_cycle-IsSafe (transition renewed wake) wake_up now now_ms woken-IsSafe)
  obey-IsSafe e cmd_sleep now now_ms v =
      let stopped = record e { wake_cycles_left = 0 } in
      let stopped-IsSafe : IsSafe c stopped = ground arith in
      ground (arith, transition-IsSafe c stopped sleep (inl refl) stopped-IsSafe)
  obey-IsSafe e (enqueue_sync item) now now_ms v =
      let queued = record e { pending_sync = e.pending_sync ++ item ∷ [] } in
      let message = bytes "sync item queued; pending=" ++ decimal (length queued.pending_sync) in
      let told =
        publish (send queued (event (log e.node_id message now) ∷ [])) now
          (bytes "ghost_enqueue_sync") in
      let grown-IsSafe : (same e.state zeroized ≡ false) → IsSafe c told =
        λ h. record { configured = v.configured; wiped = inl h; counted = v.counted } in
      elim (Bool-cases (same e.state zeroized)) [
        | inl h ↦ ground arith
        | inr h ↦ ground (arith, run_cycle-IsSafe told manual now now_ms (grown-IsSafe h))
      ]
  obey-IsSafe e trigger_sync now now_ms v =
      ground (arith, run_cycle-IsSafe e force_sync now now_ms v)
  obey-IsSafe e trigger_beacon now now_ms v =
      ground (arith, run_cycle-IsSafe e force_beacon now now_ms v)
  obey-IsSafe e (trigger_panic reason) now now_ms v =
      ground (arith, run_cycle-IsSafe e (panic_now reason) now now_ms v)
  obey-IsSafe e zeroize now now_ms v =
      publish-IsSafe c (perform_zeroize e now) now (bytes "ghost_cmd_zeroize")
        (perform_zeroize-IsSafe c e now v)
  obey-IsSafe e (update_metrics connected known route) now now_ms v =
      run_cycle-IsSafe _ manual now now_ms
        (record { configured = v.configured; wiped = v.wiped; counted = v.counted })
  obey-IsSafe e (set_tamper tamper) now now_ms v =
      let flagged =
        publish (record e { tamper_detected = tamper }) now
          (bytes "ghost_tamper:" ++ bool_text tamper) in
      let flagged-IsSafe : IsSafe c flagged = record {
        configured = v.configured;
        wiped = v.wiped;
        counted = v.counted;
      } in
      ground (
        arith,
        flagged-IsSafe,
        run_cycle-IsSafe flagged (panic_now (bytes "tamper_flag_set")) now now_ms flagged-IsSafe,
      )
  obey-IsSafe e (observe_signal signal) now now_ms v =
      run_cycle-IsSafe _ manual now now_ms
        (publish-IsSafe c e now (bytes "ghost_observe:" ++ signal) v)

  on_beacon_tick-IsSafe :
      (e : GhostEngine) (now now_ms : ℕ) → IsSafe c e → IsSafe c (on_beacon_tick e now now_ms)
  unfolding on_beacon_tick
  on_beacon_tick-IsSafe e now now_ms v =
      let pulsed = record e { metrics = record e.metrics { last_pulse_ts = some now } } in
      let pulsed-IsSafe : IsSafe c pulsed = record {
        configured = v.configured;
        wiped = v.wiped;
        counted = v.counted;
      } in
      ground (
        arith,
        publish-IsSafe c pulsed now (bytes "ghost_beacon_tick_sleep") pulsed-IsSafe,
        run_cycle-IsSafe pulsed pulse now now_ms pulsed-IsSafe,
      )

  on_sync_tick-IsSafe :
      (e : GhostEngine) (now now_ms : ℕ) → IsSafe c e → IsSafe c (on_sync_tick e now now_ms)
  unfolding on_sync_tick
  on_sync_tick-IsSafe e now now_ms v = ground (
    arith,
    publish-IsSafe c e now (bytes "ghost_sync_tick_sleep") v,
    run_cycle-IsSafe e sync_tick now now_ms v,
  )

  handle-IsSafe : (e : GhostEngine) (a : Arrival) → IsSafe c e → IsSafe c (handle e a)
  unfolding handle
  handle-IsSafe e a v =
      elim a.input
        as (λ i. IsSafe c (handle e (record { input = i; now = a.now; now_ms = a.now_ms }))) [
          | beacon_tick ↦ on_beacon_tick-IsSafe e a.now a.now_ms v
          | sync_interval_tick ↦ on_sync_tick-IsSafe e a.now a.now_ms v
          | command order ↦ obey-IsSafe e order a.now a.now_ms v
          | closed ↦ v
        ]

  run_loop-IsSafe :
      (e : GhostEngine) (arrivals : List Arrival) → IsSafe c e → IsSafe c (run_loop e arrivals)
  unfolding run_loop
  run_loop-IsSafe e [] v = v
  run_loop-IsSafe e (a ∷ rest) v =
      ground (arith, handle-IsSafe e a v, run_loop-IsSafe (handle e a) rest (handle-IsSafe e a v))

  -- An engine that is spawned with a configuration keeps it through every run; if it is zeroized at
  -- the end no item waits to be synced, and it has no more wake cycles left than the configuration
  -- says.
  pub run-IsSafe :
      (node_id role : Text) (world_state : Bool) (now : ℕ) (arrivals : List Arrival)
      → IsSafe c (run (spawn node_id role c world_state) now arrivals)
  unfolding run
  run-IsSafe node_id role world_state now arrivals =
      let e = spawn node_id role c world_state in
      run_loop-IsSafe _ arrivals (
        publish-IsSafe c (transition e sleep) now (bytes "ghost_boot")
          (transition-IsSafe c e sleep (inl refl) (ground arith)))
