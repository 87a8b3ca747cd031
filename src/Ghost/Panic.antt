-- ===== src/Ghost/Panic.antt =====
-- src/ghost.rs: what a panic does to an engine that is configured to be zeroized on one.
use ess_p2p_rs.Shared.{ℕ, ◌≡◌, true, some, [], ◌∷◌, ◌++◌, Text, bytes, arith}
use ess_p2p_rs.Ghost.{
  zeroized, panic, same, GhostConfig, GhostEngine, do_panic, trigger_panic, set_tamper, panic_now,
  event, panicked,
}
use ess_p2p_rs.Ghost.Engine.{
  send, world_writes, transition, publish, assess, decide, decide_trigger,
}
use ess_p2p_rs.Ghost.Actions.{
  perform_panic, act, act_all, after_active_pulse, publish_reasons, run_cycle,
}
use ess_p2p_rs.Ghost.Loop.{obey}
use ess_p2p_rs.Ghost.Render.{decision_message}
use ess_p2p_rs.Ghost.Invariant.{IsSafe, publish-IsSafe, publish_reasons-IsSafe}
use ess_p2p_rs.Ghost.Invariant.Run.{obey-IsSafe}
use ess_p2p_rs.Ghost.Delivery.Cycle.{perform_zeroize-zeroized}

module _ (c : GhostConfig) (on_panic : c.zeroize_on_panic ≡ true) where
  perform_panic-zeroized :
      (e : GhostEngine) (reason : Text) (now : ℕ)
      → IsSafe c e
      → same (perform_panic e reason now).state zeroized ≡ true
  unfolding perform_panic
  perform_panic-zeroized e reason now v =
      let told = send (transition e panic) (
        event (panicked e.node_id reason now)
        ∷ world_writes (transition e panic) (some (bytes "ghost_panic:" ++ reason))) in
      ground (arith, on_panic, perform_zeroize-zeroized told now)

  run_cycle-zeroized :
      (e : GhostEngine) (reason : Text) (now now_ms : ℕ)
      → IsSafe c e
      → same (run_cycle e (panic_now reason) now now_ms).state zeroized ≡ true
  unfolding run_cycle decide decide_trigger act_all act after_active_pulse
  run_cycle-zeroized e reason now now_ms v =
      let assessed = publish_reasons e now (assess e).reasons in
      let assessed-IsSafe = publish_reasons-IsSafe c e now (assess e).reasons v in
      let message = decision_message (do_panic reason) in
      let told = publish assessed now message in
      ground (
        arith,
        perform_panic-zeroized told reason now
            (publish-IsSafe c assessed now message assessed-IsSafe),
      )

  -- An engine that follows its configuration, and is configured to be zeroized on a panic, is
  -- zeroized after the command to panic, in whatever state it was, and no item waits to be synced.
  pub panic_wipes :
      (e : GhostEngine) (reason : Text) (now now_ms : ℕ)
      → IsSafe c e
      → (same (obey e (trigger_panic reason) now now_ms).state zeroized ≡ true)
        × ((obey e (trigger_panic reason) now now_ms).pending_sync ≡ [])
  unfolding obey
  panic_wipes e reason now now_ms v = ground (
    arith,
    run_cycle-zeroized e reason now now_ms v,
    (obey-IsSafe c e (trigger_panic reason) now now_ms v).wiped,
  )

  -- An engine that follows its configuration, and is configured to be zeroized on a panic, is
  -- zeroized after the command that sets the tamper flag, and no item waits to be synced.
  pub tamper_wipes :
      (e : GhostEngine) (now now_ms : ℕ)
      → IsSafe c e
      → (same (obey e (set_tamper true) now now_ms).state zeroized ≡ true)
        × ((obey e (set_tamper true) now now_ms).pending_sync ≡ [])
  unfolding obey
  tamper_wipes e now now_ms v =
      let flagged = publish (record e { tamper_detected = true }) now (bytes "ghost_tamper:true") in
      let flagged-IsSafe : IsSafe c flagged = record {
        configured = v.configured;
        wiped = v.wiped;
        counted = v.counted;
      } in
      ground (
        arith,
        run_cycle-zeroized flagged (bytes "tamper_flag_set") now now_ms flagged-IsSafe,
        (obey-IsSafe c e (set_tamper true) now now_ms v).wiped,
      )
