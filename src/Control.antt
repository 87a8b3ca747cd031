-- ===== src/Control.antt =====
-- src/control_loop.rs and the commands of src/ghost_bridge.rs: what the control loop does on an event of the
-- system and on a check of the epoch (src/id_rotation.rs). The engine still takes commands; the calls of the
-- network controller are a list, the newest last. The runtime's world is the shared one.
pub mod Violation
pub mod Enforce
use ess_p2p_rs.Shared.{
  ℕ, ◌+◌, ◌*◌, ◌/◌, Bool, true, false, not, ◌&&◌, List, [], ◌∷◌, ◌++◌, Text, bytes, ltb,
  if◌then◌else◌,
}
use ess_p2p_rs.Shared.Order.{text_ord, text_eq}
use ess_p2p_rs.Ghost.Render.{decimal}
use ess_p2p_rs.Ghost.{
  GhostCommand, enqueue_sync, trigger_sync, trigger_panic, observe_signal, set_tamper,
}
use ess_p2p_rs.World.{observe_signal as observe_world}
use ess_p2p_rs.Health.Policy.{
  default_policy, go_to_sleep, wake_up, send_beacon, SystemEventKind, peer_connected,
  peer_disconnected, security_reject, authority_violation, ghost_recommendation,
}
use ess_p2p_rs.Runtime.{
  Clock, Env, GhostRuntime, command, apply_decision, publish_event, assess_runtime,
}
use ess_p2p_rs.Runtime.Ticks.{zeroize_runtime, policy_update}

abbrev pub observed_and_synced : Text → Text → List GhostCommand
observed_and_synced what detail =
    observe_signal (bytes "bridge:" ++ (what ++ detail))
    ∷ enqueue_sync (what ++ detail)
    ∷ trigger_sync
    ∷ []

abbrev pub observe_peer_connected : Text → List GhostCommand
observe_peer_connected peer_id = observed_and_synced (bytes "network:peer_connected:") peer_id

abbrev pub observe_peer_disconnected : Text → List GhostCommand
observe_peer_disconnected peer_id = observed_and_synced (bytes "network:peer_disconnected:") peer_id

abbrev pub observe_message_failed : Text → List GhostCommand
observe_message_failed reason = observed_and_synced (bytes "network:message_failed:") reason

-- What is asked of the network controller, and the reload that is asked of its security runtime.
pub data ControllerCall : Type 0 where
  update_peer_success update_peer_failure reload_policy : Text → ControllerCall

abbrev pub rotation_period : ℕ
rotation_period = 86400

abbrev pub epoch_of : ℕ → ℕ
epoch_of now = now / rotation_period

-- `has_world` says that the controller was given the world.
module _ (env : Env) where
  pub record ControlLoop : Type 0 where
    pub runtime : GhostRuntime env
    pub has_world : Bool
    pub last_rotation_epoch : ℕ
    pub calls : List ControllerCall
    pub logged : List Text

  abbrev pub with_runtime : ControlLoop → GhostRuntime env → ControlLoop
  with_runtime c r = record c { runtime = r }

  abbrev pub call : ControlLoop → ControllerCall → ControlLoop
  call c asked = record c { calls = c.calls ++ asked ∷ [] }

  abbrev pub bridge : ControlLoop → List GhostCommand → ControlLoop
  bridge c commands = with_runtime c (command env c.runtime commands)

  abbrev pub note_event : ControlLoop → Text → Clock → ControlLoop
  note_event c signal clock =
      if c.has_world && not c.runtime.poisoned
      then with_runtime c
          (record c.runtime { world = observe_world c.runtime.world signal clock.ts clock.now })
      else c

  unfoldable pub on_recommendation : ControlLoop → Text → Clock → ControlLoop
  unfolding apply_decision assess_runtime
  on_recommendation c signal clock =
      let now = clock.now in
      if text_eq signal (bytes "reload_policy")
      then call c (reload_policy (bytes "data/policy_inner.toml"))
      else if text_eq signal (bytes "sleep_ghost")
      then with_runtime c (apply_decision env c.runtime go_to_sleep now)
      else if text_eq signal (bytes "wake_ghost")
      then with_runtime c (apply_decision env c.runtime wake_up now)
      else if text_eq signal (bytes "tamper_on")
      then bridge c (set_tamper true ∷ [])
      else if text_eq signal (bytes "tamper_off")
      then bridge c (set_tamper false ∷ [])
      else if text_eq signal (bytes "policy_update")
      then with_runtime c (policy_update env c.runtime (default_policy env.floats) clock)
      else c

  unfoldable pub on_event : ControlLoop → SystemEventKind env.floats → Clock → ControlLoop
  unfolding on_recommendation
  on_event c (peer_connected peer_id) clock =
      bridge (call c (update_peer_success peer_id)) (observe_peer_connected peer_id)
  on_event c (peer_disconnected peer_id) clock =
      let told = bridge c (observe_peer_disconnected peer_id) in
      with_runtime told (apply_decision env told.runtime send_beacon clock.now)
  on_event c (security_reject peer_id reason) clock =
      let told = bridge (call c (update_peer_failure peer_id)) (observe_message_failed reason) in
      with_runtime told (assess_runtime env told.runtime clock)
  on_event c (authority_violation peer_id action) clock =
      let told =
        bridge (call c (update_peer_failure peer_id))
          (trigger_panic (bytes "policy_violation") ∷ []) in
      with_runtime told (zeroize_runtime env told.runtime clock.now)
  on_event c (ghost_recommendation signal) clock = on_recommendation c signal clock
  on_event c kind clock = c

  unfoldable pub handle_system_event :
      ControlLoop → SystemEventKind env.floats → Clock → ControlLoop
  unfolding on_event observe_world publish_event
  handle_system_event c kind clock =
      let noted = note_event c (bytes "loop:" ++ env.debug kind) clock in
      let handled = on_event noted kind clock in
      with_runtime handled (publish_event env handled.runtime kind clock.now)

  unfoldable pub on_rotation_check_tick : ControlLoop → Clock → ControlLoop
  unfolding apply_decision assess_runtime
  on_rotation_check_tick c clock =
      let epoch = epoch_of clock.now in
      let beaconed = apply_decision env c.runtime send_beacon clock.now in
      if ltb c.last_rotation_epoch epoch
      then record c {
        runtime = assess_runtime env beaconed clock;
        last_rotation_epoch = epoch;
        logged = c.logged ++ (bytes "[ID-ROTATION] Rotated to epoch " ++ decimal epoch) ∷ [];
      }
      else c
