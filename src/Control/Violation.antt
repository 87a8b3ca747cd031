-- ===== src/Control/Violation.antt =====
-- src/control_loop.rs with src/ghost.rs: what a violation of the authority does to the engine.
use ess_p2p_rs.Shared.{
  ℕ, ◌≡◌, refl, ap, ◌∙◌, Bool, true, false, not, ◌&&◌, List, [], ◌∷◌, ◌++◌, Text, bytes, if_either,
  if_false,
}
use mathlib.Core.List.{append_assoc}
use ess_p2p_rs.Authority.{Action}
use ess_p2p_rs.Ghost.{
  GhostEngine, GhostCommand, zeroized, same, trigger_panic, zeroize, observe_signal,
}
use ess_p2p_rs.Ghost.Loop.{Arrival, command, obey, handle, run_loop}
use ess_p2p_rs.Ghost.Delivery.Cycle.{perform_zeroize-zeroized}
use ess_p2p_rs.World.{observe_signal as observe_world}
use ess_p2p_rs.Health.Policy.{authority_violation, evaluate_event, wake_up}
use ess_p2p_rs.Runtime.{
  Clock, Env, GhostRuntime, command as command_runtime, to_sink, quarantine_peer, apply_decision,
  publish_event,
}
use ess_p2p_rs.Runtime.Ticks.{zeroize_runtime}
use ess_p2p_rs.Runtime.Poisoned.{commands-set_world_state}
use ess_p2p_rs.Runtime.Sleeps.{commands-to_sink}
use ess_p2p_rs.Control.{ControlLoop, note_event, on_event, handle_system_event}

-- Commands that reach the engine one after the other.
abbrev pub arrivals : ℕ → ℕ → List GhostCommand → List Arrival
arrivals now now_ms [] = []
arrivals now now_ms (c ∷ cs) =
    record { input = command c; now = now; now_ms = now_ms } ∷ arrivals now now_ms cs

and_false : (b : Bool) → (b && false) ≡ false
and_false true = refl
and_false false = refl

module _ (env : Env) where
  commands-note_event :
      (c : ControlLoop env) (signal : Text) (clock : Clock)
      → (note_event env c signal clock).runtime.commands ≡ c.runtime.commands
  commands-note_event c signal clock =
      if_either (λ d. d.runtime.commands ≡ c.runtime.commands)
        (c.has_world && not c.runtime.poisoned)
        (record c {
          runtime = record c.runtime {
            world = observe_world c.runtime.world signal clock.ts clock.now;
          };
        })
        c refl refl

  -- The commands that a violation sends.
  abbrev pub violation_commands : Text → Action → List GhostCommand
  violation_commands peer_id action =
      trigger_panic (bytes "policy_violation")
      ∷ zeroize
      ∷ observe_signal (env.debug (authority_violation peer_id action))
      ∷ []

  -- A violation has its peer quarantined; the engine only gets the signal.
  published_violation :
      (r : GhostRuntime env) (peer_id : Text) (action : Action) (now : ℕ)
      → (publish_event env r (authority_violation peer_id action) now).commands
        ≡ r.commands ++ observe_signal (env.debug (authority_violation peer_id action)) ∷ []
  unfolding publish_event evaluate_event apply_decision
  published_violation r peer_id action now =
      let told = observe_signal (env.debug (authority_violation peer_id action)) ∷ [] in
      let jailed = to_sink env r (quarantine_peer peer_id ∷ []) in
      let unwoken =
        if_false (r.config.wake_on_activity && false) (apply_decision env jailed wake_up now) jailed
          (and_false r.config.wake_on_activity) in
      ap (λ (t : GhostRuntime env). t.commands ++ told) unwoken
      ∙ ap (λ cs. cs ++ told) (commands-to_sink env r (quarantine_peer peer_id ∷ []))

  violation_sends :
      (c : ControlLoop env) (peer_id : Text) (action : Action) (clock : Clock)
      → (handle_system_event env c (authority_violation peer_id action) clock).runtime.commands
        ≡ c.runtime.commands ++ violation_commands peer_id action
  unfolding handle_system_event on_event
  violation_sends c peer_id action clock =
      let kind = authority_violation peer_id action in
      let signal = bytes "loop:" ++ env.debug kind in
      let told = observe_signal (env.debug kind) ∷ [] in
      let panicking = trigger_panic (bytes "policy_violation") ∷ [] in
      let panicked = command_runtime env (note_event env c signal clock).runtime panicking in
      published_violation (zeroize_runtime env panicked clock.now) peer_id action clock.now
      ∙ (ap (λ cs. (cs ++ zeroize ∷ []) ++ told)
            (commands-set_world_state env panicked (bytes "zeroized") clock.now)
          ∙ (ap (λ cs. ((cs ++ panicking) ++ zeroize ∷ []) ++ told)
                (commands-note_event c signal clock)
              ∙ (append_assoc (c.runtime.commands ++ panicking) (zeroize ∷ []) told
                  ∙ append_assoc c.runtime.commands panicking (zeroize ∷ told))))

  -- Whatever the state of the node, a violation of the authority by any peer sends commands that
  -- zeroize the engine, in whatever state the engine is, if they reach it in order.
  pub violation_wipes :
      (c : ControlLoop env) (peer_id : Text) (action : Action) (clock : Clock) (e : GhostEngine)
      (now now_ms : ℕ)
      → (sent : List GhostCommand) × ((handle_system_event env c
            (authority_violation peer_id action)
            clock).runtime.commands
          ≡ c.runtime.commands ++ sent)
        × (same (run_loop e (arrivals now now_ms sent)).state zeroized ≡ true)
  unfolding run_loop handle obey
  violation_wipes c peer_id action clock e now now_ms = (
    violation_commands peer_id action,
    violation_sends c peer_id action clock,
    perform_zeroize-zeroized (obey e (trigger_panic (bytes "policy_violation")) now now_ms) now,
  )
