-- ===== src/Ghost/Invariant.antt =====
-- src/ghost.rs: what every input keeps. A zeroized engine stays so and holds no data to sync, and the
-- count of wake cycles stays within its configuration.
pub mod Run
use ess_p2p_rs.Shared.{
  ℕ, ◌≤◌, ◌≡◌, refl, Bool, false, ◌⊎◌, inl, inr, some, List, [], ◌∷◌, ◌++◌, Text, bytes, length,
  Bool-cases, arith,
}
use ess_p2p_rs.Ghost.{
  GhostState, sleep, wake, beacon, idle, panic, zeroized, same, GhostConfig, GhostEngine,
  GhostDecision, do_beacon, do_sync, do_panic, do_sleep, do_idle, CycleTrigger, spawn, GhostCommand,
  cmd_wake, event, log, panicked, cmd_sleep, enqueue_sync, trigger_sync, trigger_beacon,
  trigger_panic, zeroize, update_metrics, set_tamper, observe_signal, wake_up, force_sync,
  force_beacon, panic_now, manual, pulse, sync_tick,
}
use ess_p2p_rs.Ghost.Render.{decimal, decision_message}
use ess_p2p_rs.Ghost.Engine.{send, world_writes, transition, publish, assess, decide}
use ess_p2p_rs.Ghost.Actions.{
  pop_batch, perform_beacon, perform_sync_if_needed, perform_zeroize, perform_panic, act, act_all,
  after_active_pulse, publish_reasons, run_cycle,
}
use ess_p2p_rs.Ghost.Loop.{
  bool_text, Arrival, beacon_tick, sync_interval_tick, command, closed, obey, on_beacon_tick,
  on_sync_tick, handle, run_loop, run,
}

pub record IsSafe (c : GhostConfig) (e : GhostEngine) : Type 0 where
  pub configured : e.config ≡ c
  pub wiped : (same e.state zeroized ≡ false) ⊎ (e.pending_sync ≡ [])
  pub counted : e.wake_cycles_left ≤ c.idle_to_sleep_after_cycles

module _ (c : GhostConfig) where
  pub transition-IsSafe :
      (e : GhostEngine) (to : GhostState)
      → (same to zeroized ≡ false) ⊎ (e.pending_sync ≡ [])
      → IsSafe c e
      → IsSafe c (transition e to)
  unfolding transition
  transition-IsSafe e to h v = ground arith

  pub perform_beacon-IsSafe :
      (e : GhostEngine) (now now_ms : ℕ) → IsSafe c e → IsSafe c (perform_beacon e now now_ms)
  unfolding perform_beacon
  perform_beacon-IsSafe e now now_ms v = ground (arith, transition-IsSafe e beacon (inl refl) v)

  pub perform_zeroize-IsSafe :
      (e : GhostEngine) (now : ℕ) → IsSafe c e → IsSafe c (perform_zeroize e now)
  unfolding perform_zeroize transition
  perform_zeroize-IsSafe e now v = ground arith

  pub perform_panic-IsSafe :
      (e : GhostEngine) (reason : Text) (now : ℕ)
      → IsSafe c e
      → IsSafe c (perform_panic e reason now)
  unfolding perform_panic
  perform_panic-IsSafe e reason now v =
      let told = send (transition e panic) (
        event (panicked e.node_id reason now)
        ∷ world_writes (transition e panic) (some (bytes "ghost_panic:" ++ reason))) in
      let told-IsSafe : IsSafe c told = ground (arith, transition-IsSafe e panic (inl refl) v) in
      ground (arith, told-IsSafe, perform_zeroize-IsSafe told now told-IsSafe)

  pub perform_sync-IsSafe :
      (e : GhostEngine) (force : Bool) (now : ℕ)
      → IsSafe c e
      → IsSafe c (perform_sync_if_needed e force now)
  unfolding perform_sync_if_needed pop_batch transition
  perform_sync-IsSafe e force now v = ground arith

  pub after_active_pulse-IsSafe :
      (e : GhostEngine) (now : ℕ) → IsSafe c e → IsSafe c (after_active_pulse e now)
  unfolding after_active_pulse transition
  after_active_pulse-IsSafe e now v = ground arith

  pub publish-IsSafe :
      (e : GhostEngine) (now : ℕ) (m : Text) → IsSafe c e → IsSafe c (publish e now m)
  publish-IsSafe e now m v = record {
    configured = v.configured;
    wiped = v.wiped;
    counted = v.counted;
  }

  pub act-IsSafe :
      (e : GhostEngine) (d : GhostDecision) (now now_ms : ℕ)
      → IsSafe c e
      → IsSafe c (act e d now now_ms)
  unfolding act
  act-IsSafe e do_beacon now now_ms v = perform_beacon-IsSafe e now now_ms v
  act-IsSafe e (do_sync force) now now_ms v = perform_sync-IsSafe e force now v
  act-IsSafe e (do_panic reason) now now_ms v = perform_panic-IsSafe e reason now v
  act-IsSafe e do_sleep now now_ms v = ground (arith, transition-IsSafe e sleep (inl refl) v)
  act-IsSafe e do_idle now now_ms v = ground (arith, transition-IsSafe e idle (inl refl) v)

  pub act_all-IsSafe :
      (e : GhostEngine) (ds : List GhostDecision) (now now_ms : ℕ)
      → IsSafe c e
      → IsSafe c (act_all e ds now now_ms)
  unfolding act_all
  act_all-IsSafe e [] now now_ms v = v
  act_all-IsSafe e (d ∷ ds) now now_ms v =
      let told = publish e now (decision_message d) in
      act_all-IsSafe (act told d now now_ms) ds now now_ms
        (act-IsSafe told d now now_ms (publish-IsSafe e now (decision_message d) v))

  pub publish_reasons-IsSafe :
      (e : GhostEngine) (now : ℕ) (reasons : List Text)
      → IsSafe c e
      → IsSafe c (publish_reasons e now reasons)
  unfolding publish_reasons
  publish_reasons-IsSafe e now [] v = v
  publish_reasons-IsSafe e now (r ∷ rs) v =
      publish_reasons-IsSafe (publish e now (bytes "ghost_assess:" ++ r)) now rs
        (publish-IsSafe e now (bytes "ghost_assess:" ++ r) v)
