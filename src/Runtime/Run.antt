-- ===== src/Runtime/Run.antt =====
-- src/ghost_runtime.rs: runs of what the handle of the runtime is asked for.
use ess_p2p_rs.Shared.{ℕ, Bool, true, unwrap_or, List, [], ◌∷◌, Text}
use ess_p2p_rs.Ghost.{observe_signal, set_tamper}
use ess_p2p_rs.World.{WorldState}
use ess_p2p_rs.Health.{GhostHealthSnapshot}
use ess_p2p_rs.Health.Policy.{
  GhostPolicy, GhostDecision, SystemEventKind, start_sync, send_beacon, go_to_sleep, wake_up,
}
use ess_p2p_rs.Runtime.{
  Clock, Env, GhostRuntime, command, apply_decision, publish_event, assess_runtime,
}
use ess_p2p_rs.Runtime.Ticks.{
  act_runtime, update_runtime_metrics, scheduler_tick, counted_only, health, zeroize_runtime,
  policy_update,
}

module _ (env : Env) where
  -- What the handle can be asked for, and what others do to the world that they share.
  pub data Op : Type 1 where
    tick : Op
    publish : SystemEventKind env.floats → Op
    apply_now : GhostDecision env.floats → Op
    assess_now act_now sync_now beacon_now zeroize_now sleep_now wake_now : Op
    report : GhostHealthSnapshot → Op
    metrics : ℕ → ℕ → ℕ → Op
    signal : Text → Op
    tamper : Bool → Op
    change_policy : GhostPolicy env.floats → Op
    set_sink : Op
    world_becomes : WorldState → Op
    world_poisoned : Op

  unfoldable pub step : GhostRuntime env → Op → Clock → GhostRuntime env
  unfolding scheduler_tick publish_event assess_runtime act_runtime update_runtime_metrics
      apply_decision
  step r tick clock = unwrap_or (scheduler_tick env r clock) (counted_only env r clock)
  step r (publish kind) clock = publish_event env r kind clock.now
  step r (apply_now d) clock = apply_decision env r d clock.now
  step r assess_now clock = assess_runtime env r clock
  step r act_now clock = act_runtime env r clock.now
  step r sync_now clock = apply_decision env r start_sync clock.now
  step r beacon_now clock = apply_decision env r send_beacon clock.now
  step r zeroize_now clock = zeroize_runtime env r clock.now
  step r sleep_now clock = apply_decision env r go_to_sleep clock.now
  step r wake_now clock = apply_decision env r wake_up clock.now
  step r (report seen) clock = health env r seen
  step r (metrics c k t) clock = update_runtime_metrics env r c k t clock.now
  step r (signal s) clock = command env r (observe_signal s ∷ [])
  step r (tamper b) clock = command env r (set_tamper b ∷ [])
  step r (change_policy p) clock = policy_update env r p clock
  step r set_sink clock = record r { has_sink = true }
  step r (world_becomes w) clock = record r { world = w }
  step r world_poisoned clock = record r { poisoned = true }

  unfoldable pub run_ops : GhostRuntime env → List (Op × Clock) → GhostRuntime env
  unfolding step
  run_ops r [] = r
  run_ops r ((o, clock) ∷ ops) = run_ops (step r o clock) ops
