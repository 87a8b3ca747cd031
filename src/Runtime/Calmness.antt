-- ===== src/Runtime/Calmness.antt =====
-- src/ghost_runtime.rs: a runtime that can read the world and has not panicked the engine stays so as it decides.
use ess_p2p_rs.Shared.{
  ℕ, ◌≡◌, refl, Bool, true, false, ◌&&◌, List, [], ◌∷◌, ◌++◌, Text, bytes, All, All-append,
  if_either, arith, if◌then◌else◌,
}
use ess_p2p_rs.Shared.Dict.{Dict}
use ess_p2p_rs.Ghost.{
  idle, GhostCommand, cmd_wake, cmd_sleep, enqueue_sync, trigger_beacon, trigger_panic,
  observe_signal, trigger_sync,
}
use ess_p2p_rs.World.{PeerState, WorldState, set_ghost_state}
use ess_p2p_rs.Health.{GhostHealthAssessment, assess}
use ess_p2p_rs.Health.Policy.{
  GhostDecision, noop, wake_up, go_to_sleep, send_beacon, start_sync, do_panic, degrade, drop_peer,
  throttle, isolate_peer, retry, reroute, adjust_reputation, SystemEventKind, evaluate_event,
  evaluate_reputation,
}
use ess_p2p_rs.Health.Decisions.{is_panic}
use ess_p2p_rs.Runtime.Tame.{
  IsTame, IsTameIfAny, build-IsTame, event_no_panic, reputation_no_panic, decide_on-IsTameIfAny,
}
use ess_p2p_rs.Runtime.{
  Clock, Env, SinkAction, sink_drop, limit_peer, quarantine_peer, reroute_traffic, adjust_score,
  GhostRuntime, command, to_sink, set_world_state, apply_decision, publish_event, is_connection,
  build_real_snapshot, judge_peers, note_assessment, assess_runtime,
}
use ess_p2p_rs.Runtime.Ticks.{decide_on, decide_runtime, act_runtime}

abbrev is_trigger_panic : GhostCommand → Bool
is_trigger_panic (trigger_panic reason) = true
is_trigger_panic c = false

abbrev pub NoPanic : List GhostCommand → Type 0
NoPanic cs = All (λ c. is_trigger_panic c ≡ false) cs

module _ (env : Env) where
  pub record IsCalm (r : GhostRuntime env) : Type 0 where
    pub sound : r.poisoned ≡ false
    pub tame : IsTameIfAny env r.scheduler.last_assessment
    pub quiet : NoPanic r.commands

  pub command-IsCalm :
      (r : GhostRuntime env) (cs : List GhostCommand)
      → NoPanic cs
      → IsCalm r
      → IsCalm (command env r cs)
  command-IsCalm r cs q c = record {
    sound = c.sound;
    tame = c.tame;
    quiet = All-append (λ c. is_trigger_panic c ≡ false) r.commands cs c.quiet q;
  }

  to_sink-IsCalm :
      (r : GhostRuntime env) (told : List (SinkAction env)) → IsCalm r → IsCalm (to_sink env r told)
  to_sink-IsCalm r told c =
      if_either IsCalm r.has_sink (record r { actions = r.actions ++ told }) r
        (record { sound = c.sound; tame = c.tame; quiet = c.quiet }) c

  -- The world may change.
  pub world-IsCalm :
      (r : GhostRuntime env) (w : WorldState) → IsCalm r → IsCalm (record r { world = w })
  world-IsCalm r w c = record { sound = c.sound; tame = c.tame; quiet = c.quiet }

  pub set_world_state-IsCalm :
      (r : GhostRuntime env) (state : Text) (now : ℕ)
      → IsCalm r
      → IsCalm (set_world_state env r state now)
  set_world_state-IsCalm r state now c =
      if_either IsCalm r.poisoned r (record r { world = set_ghost_state r.world state now }) c
        (world-IsCalm r (set_ghost_state r.world state now) c)

  pub apply_decision-IsCalm :
      (r : GhostRuntime env) (d : GhostDecision env.floats) (now : ℕ)
      → is_panic env.trim env.floats d ≡ false
      → IsCalm r
      → IsCalm (apply_decision env r d now)
  unfolding apply_decision
  apply_decision-IsCalm r noop now h c = c
  apply_decision-IsCalm r wake_up now h c =
      command-IsCalm (set_world_state env r (bytes "waking") now) (cmd_wake ∷ []) (refl, tt)
        (set_world_state-IsCalm r (bytes "waking") now c)
  apply_decision-IsCalm r go_to_sleep now h c =
      command-IsCalm (set_world_state env r (bytes "sleeping") now) (cmd_sleep ∷ []) (refl, tt)
        (set_world_state-IsCalm r (bytes "sleeping") now c)
  apply_decision-IsCalm r send_beacon now h c = command-IsCalm r (trigger_beacon ∷ []) (refl, tt) c
  apply_decision-IsCalm r start_sync now h c = command-IsCalm r (trigger_sync ∷ []) (refl, tt) c
  apply_decision-IsCalm r do_panic now h c = ground (arith, h)
  apply_decision-IsCalm r degrade now h c = set_world_state-IsCalm r (bytes "degraded") now c
  apply_decision-IsCalm r (drop_peer peer_id) now h c = to_sink-IsCalm r (sink_drop peer_id ∷ []) c
  apply_decision-IsCalm r (throttle peer_id) now h c = to_sink-IsCalm r (limit_peer peer_id ∷ []) c
  apply_decision-IsCalm r (isolate_peer peer_id) now h c =
      to_sink-IsCalm r (quarantine_peer peer_id ∷ []) c
  apply_decision-IsCalm r (retry peer_id) now h c =
      command-IsCalm r (enqueue_sync (bytes "retry:" ++ peer_id) ∷ []) (refl, tt) c
  apply_decision-IsCalm r (reroute peer_id) now h c =
      let told = reroute_traffic peer_id [] ∷ [] in
      command-IsCalm (to_sink env r told)
        (enqueue_sync (bytes "reroute:" ++ peer_id) ∷ trigger_beacon ∷ []) (refl, (refl, tt))
        (to_sink-IsCalm r told c)
  apply_decision-IsCalm r (adjust_reputation peer_id delta) now h c =
      to_sink-IsCalm r (adjust_score peer_id delta ∷ []) c

  pub publish_event-IsCalm :
      (r : GhostRuntime env) (kind : SystemEventKind env.floats) (now : ℕ)
      → IsCalm r
      → IsCalm (publish_event env r kind now)
  unfolding publish_event
  publish_event-IsCalm r kind now c =
      let d = evaluate_event env.floats r.policy kind in
      let decided = apply_decision env r d now in
      let c' = apply_decision-IsCalm r d now (event_no_panic env r.policy kind) c in
      let awake = r.config.wake_on_activity && is_connection env kind in
      let woken = apply_decision env decided wake_up now in
      command-IsCalm (if awake then woken else decided) (observe_signal (env.debug kind) ∷ [])
        (refl, tt)
        (if_either IsCalm awake woken decided (apply_decision-IsCalm decided wake_up now refl c')
          c')

  pub judge_peers-IsCalm :
      (r : GhostRuntime env) (m : Dict Text PeerState) (now : ℕ)
      → IsCalm r
      → IsCalm (judge_peers env r m now)
  unfolding judge_peers
  judge_peers-IsCalm r [] now c = c
  judge_peers-IsCalm r ((peer_id, p) ∷ m) now c =
      let score = env.of_bits p.reputation.score in
      let d = evaluate_reputation env.floats r.policy peer_id score in
      judge_peers-IsCalm (apply_decision env r d now) m now
        (apply_decision-IsCalm r d now (reputation_no_panic env r.policy peer_id score) c)

  note_assessment-IsCalm :
      (r : GhostRuntime env) (a : GhostHealthAssessment)
      → IsTame env a
      → IsCalm r
      → IsCalm (note_assessment env r a)
  note_assessment-IsCalm r a t c =
      let told =
        command-IsCalm r (observe_signal (bytes "ghost:assess:" ++ a.reason) ∷ []) (refl, tt) c in
      record { sound = told.sound; tame = t; quiet = told.quiet }

  pub assess_runtime-IsCalm :
      (r : GhostRuntime env) (clock : Clock) → IsCalm r → IsCalm (assess_runtime env r clock)
  unfolding assess_runtime
  assess_runtime-IsCalm r clock c =
      let marked = set_world_state env r (bytes "assessing") clock.now in
      let c' = set_world_state-IsCalm r (bytes "assessing") clock.now c in
      let judged = judge_peers env marked marked.world.peer_registry clock.now in
      note_assessment-IsCalm (if marked.poisoned then marked else judged)
        (assess env.trim (build_real_snapshot env marked clock.ts) idle)
        (build-IsTame env marked clock.ts c'.sound)
        (if_either IsCalm marked.poisoned marked judged c'
          (judge_peers-IsCalm marked marked.world.peer_registry clock.now c'))

  pub decided-IsCalm :
      (r : GhostRuntime env) (now : ℕ)
      → IsCalm r
      → IsCalm (apply_decision env r (decide_runtime env r) now)
  unfolding decide_runtime
  decided-IsCalm r now c =
      apply_decision-IsCalm r (decide_on env r.policy r.scheduler.last_assessment) now
        (decide_on-IsTameIfAny env r.policy r.scheduler.last_assessment c.tame).0 c

  pub act_runtime-IsCalm :
      (r : GhostRuntime env) (now : ℕ) → IsCalm r → IsCalm (act_runtime env r now)
  unfolding act_runtime
  act_runtime-IsCalm r now c =
      set_world_state-IsCalm (apply_decision env r (decide_runtime env r) now) (bytes "ready") now
        (decided-IsCalm r now c)
