-- ===== src/Runtime/Sleeps.antt =====
-- src/ghost_runtime.rs: how often a decision tells the engine to sleep.
use ess_p2p_rs.Shared.{
  ℕ, ◌+◌, ◌≡◌, refl, ap, ◌∙◌, Bool, true, false, List, [], ◌∷◌, ◌++◌, Text, bytes, if_either, arith,
  if◌then◌else◌,
}
use ess_p2p_rs.Ghost.{
  GhostCommand, cmd_wake, cmd_sleep, enqueue_sync, trigger_beacon, trigger_sync, trigger_panic,
}
use ess_p2p_rs.Health.Policy.{
  GhostPolicy, GhostDecision, noop, wake_up, go_to_sleep, send_beacon, start_sync, do_panic,
  degrade, drop_peer, throttle, isolate_peer, retry, reroute, adjust_reputation,
  evaluate_reputation, evaluate_load,
}
use ess_p2p_rs.Health.Decisions.{is_sleep}
use ess_p2p_rs.Runtime.{
  Env, SinkAction, sink_drop, limit_peer, quarantine_peer, adjust_score, reroute_traffic,
  GhostRuntime, to_sink, set_world_state, apply_decision,
}
use ess_p2p_rs.Runtime.Poisoned.{commands-set_world_state}

abbrev pub one_if : Bool → ℕ
one_if b = if b then 1 else 0

abbrev is_cmd_sleep : GhostCommand → Bool
is_cmd_sleep cmd_sleep = true
is_cmd_sleep c = false

-- How often the engine is told to sleep.
abbrev pub sleeps : List GhostCommand → ℕ
sleeps [] = 0
sleeps (c ∷ cs) = one_if (is_cmd_sleep c) + sleeps cs

pub sleeps-append : (cs ds : List GhostCommand) → sleeps (cs ++ ds) ≡ sleeps cs + sleeps ds
sleeps-append [] ds = omega arith
sleeps-append (c ∷ cs) ds = let rest = sleeps-append cs ds in omega (arith, rest)

module _ (env : Env) where
  pub told_sleeps :
      (cs : List GhostCommand) (m : List GhostCommand) (r : List GhostCommand)
      → m ≡ r
      → sleeps (m ++ cs) ≡ sleeps r + sleeps cs
  told_sleeps cs m r e = sleeps-append m cs ∙ ap (λ x. sleeps x + sleeps cs) e

  unmoved : (m r : List GhostCommand) → m ≡ r → sleeps m ≡ sleeps r + 0
  unmoved m r e = let same = ap sleeps e in omega (arith, same)

  pub commands-to_sink :
      (r : GhostRuntime env) (told : List (SinkAction env))
      → (to_sink env r told).commands ≡ r.commands
  commands-to_sink r told =
      if_either (λ t. t.commands ≡ r.commands) r.has_sink (record r { actions = r.actions ++ told })
        r refl refl

  -- A decision tells the engine to sleep exactly if it is that decision.
  pub sleeps-apply_decision :
      (r : GhostRuntime env) (d : GhostDecision env.floats) (now : ℕ)
      → sleeps (apply_decision env r d now).commands
        ≡ sleeps r.commands + one_if (is_sleep env.trim env.floats d)
  unfolding apply_decision
  sleeps-apply_decision r noop now = omega arith
  sleeps-apply_decision r wake_up now =
      told_sleeps (cmd_wake ∷ []) (set_world_state env r (bytes "waking") now).commands r.commands
        (commands-set_world_state env r (bytes "waking") now)
  sleeps-apply_decision r go_to_sleep now =
      told_sleeps (cmd_sleep ∷ []) (set_world_state env r (bytes "sleeping") now).commands
        r.commands (commands-set_world_state env r (bytes "sleeping") now)
  sleeps-apply_decision r send_beacon now =
      told_sleeps (trigger_beacon ∷ []) r.commands r.commands refl
  sleeps-apply_decision r start_sync now =
      told_sleeps (trigger_sync ∷ []) r.commands r.commands refl
  sleeps-apply_decision r do_panic now =
      told_sleeps (trigger_panic (bytes "autonomous_panic") ∷ [])
        (set_world_state env r (bytes "panic") now).commands r.commands
        (commands-set_world_state env r (bytes "panic") now)
  sleeps-apply_decision r degrade now =
      unmoved (set_world_state env r (bytes "degraded") now).commands r.commands
        (commands-set_world_state env r (bytes "degraded") now)
  sleeps-apply_decision r (drop_peer p) now =
      unmoved (to_sink env r (sink_drop p ∷ [])).commands r.commands
        (commands-to_sink r (sink_drop p ∷ []))
  sleeps-apply_decision r (throttle p) now =
      unmoved (to_sink env r (limit_peer p ∷ [])).commands r.commands
        (commands-to_sink r (limit_peer p ∷ []))
  sleeps-apply_decision r (isolate_peer p) now =
      unmoved (to_sink env r (quarantine_peer p ∷ [])).commands r.commands
        (commands-to_sink r (quarantine_peer p ∷ []))
  sleeps-apply_decision r (retry p) now =
      told_sleeps (enqueue_sync (bytes "retry:" ++ p) ∷ []) r.commands r.commands refl
  sleeps-apply_decision r (reroute p) now =
      told_sleeps (enqueue_sync (bytes "reroute:" ++ p) ∷ trigger_beacon ∷ [])
        (to_sink env r (reroute_traffic p [] ∷ [])).commands r.commands
        (commands-to_sink r (reroute_traffic p [] ∷ []))
  sleeps-apply_decision r (adjust_reputation p delta) now =
      unmoved (to_sink env r (adjust_score p delta ∷ [])).commands r.commands
        (commands-to_sink r (adjust_score p delta ∷ []))

  -- A decision that is not to sleep.
  pub sleeps_awake :
      (r : GhostRuntime env) (d : GhostDecision env.floats) (now : ℕ)
      → is_sleep env.trim env.floats d ≡ false
      → sleeps (apply_decision env r d now).commands ≡ sleeps r.commands
  sleeps_awake r d now h =
      let moved = sleeps-apply_decision r d now in
      let none_more = ap one_if h in omega (arith, moved, none_more)

  pub reputation_awake :
      (p : GhostPolicy env.floats) (peer_id : Text) (score : env.floats.F)
      → is_sleep env.trim env.floats (evaluate_reputation env.floats p peer_id score) ≡ false
  unfolding evaluate_reputation
  reputation_awake p peer_id score = ground arith

  pub load_awake :
      (p : GhostPolicy env.floats) (peers : ℕ)
      → is_sleep env.trim env.floats (evaluate_load env.floats p peers) ≡ false
  unfolding evaluate_load
  load_awake p peers = ground arith
