-- ===== src/Runtime/Poisoned.antt =====
-- src/ghost_runtime.rs: what a runtime does that cannot read the world.
use ess_p2p_rs.Shared.{
  ℕ, ◌≡◌, refl, ap, ◌∙◌, true, if_true, if_either, [], ◌∷◌, ◌++◌, Text, bytes, arith, if◌then◌else◌,
}
use mathlib.Core.List.{append_assoc}
use ess_p2p_rs.Ghost.{idle, trigger_panic, observe_signal}
use ess_p2p_rs.World.{set_ghost_state}
use ess_p2p_rs.World.Snapshot.{snapshot}
use ess_p2p_rs.Health.{
  GhostHealthSnapshot, critical, default_snapshot, health_score, level_of, recommend, assess,
}
use ess_p2p_rs.Health.Policy.{GhostPolicy, do_panic, degrade, decide_health, on_level}
use ess_p2p_rs.Runtime.{
  Clock, Env, GhostRuntime, set_world_state, apply_decision, real_snapshot, build_real_snapshot,
  judge_peers, note_assessment, assess_runtime,
}
use ess_p2p_rs.Runtime.Ticks.{decide_on, decide_runtime, act_runtime}

module _ (env : Env) where
  default_critical : level_of (health_score env.trim default_snapshot) ≡ critical
  unfolding health_score
  default_critical = ground arith

  pub commands-set_world_state :
      (r : GhostRuntime env) (state : Text) (now : ℕ)
      → (set_world_state env r state now).commands ≡ r.commands
  commands-set_world_state r state now =
      if_either (λ t. t.commands ≡ r.commands) r.poisoned r
        (record r { world = set_ghost_state r.world state now }) refl refl

  -- It assesses the snapshot of a node that knows nothing of itself.
  blind_assess :
      (r : GhostRuntime env) (clock : Clock)
      → r.poisoned ≡ true
      → assess_runtime env r clock ≡ note_assessment env r (assess env.trim default_snapshot idle)
  unfolding assess_runtime build_real_snapshot
  blind_assess r clock poisoned =
      let seen : GhostRuntime env → GhostHealthSnapshot = λ m. build_real_snapshot env m clock.ts in
      let judged : GhostRuntime env → GhostRuntime env =
        λ m. if m.poisoned then m else judge_peers env m m.world.peer_registry clock.now in
      let whole : GhostRuntime env → GhostRuntime env =
        λ m. note_assessment env (judged m) (assess env.trim (seen m) idle) in
      let unmarked =
        if_true r.poisoned r
          (record r { world = set_ghost_state r.world (bytes "assessing") clock.now }) poisoned in
      let unjudged =
        if_true r.poisoned r (judge_peers env r r.world.peer_registry clock.now) poisoned in
      let unseen =
        if_true r.poisoned default_snapshot (real_snapshot env r (snapshot r.world clock.ts))
          poisoned in
      ap whole unmarked
      ∙ (ap (λ m. note_assessment env m (assess env.trim (seen r) idle)) unjudged
          ∙ ap (λ s. note_assessment env r (assess env.trim s idle)) unseen)

  default_panics :
      (p : GhostPolicy env.floats)
      → p.panic_on_critical ≡ true
      → decide_health env.floats p idle (assess env.trim default_snapshot idle) ≡ do_panic
  unfolding decide_health assess
  default_panics p strict =
      let rec = recommend 0 idle (level_of (health_score env.trim default_snapshot)) in
      ap (on_level env.floats p idle rec) default_critical
      ∙ if_true p.panic_on_critical do_panic degrade strict

  -- If the world's lock is poisoned and the policy panics on a critical assessment, then an
  -- assessment followed by the act on it tells the engine, after the signal of the assessment, to
  -- panic, and nothing else.
  pub poisoned_panics :
      (r : GhostRuntime env) (clock : Clock) (now : ℕ)
      → r.poisoned ≡ true
      → r.policy.panic_on_critical ≡ true
      → (act_runtime env (assess_runtime env r clock) now).commands
        ≡ r.commands
          ++ (observe_signal (bytes "ghost:assess:isolated_node")
              ∷ trigger_panic (bytes "autonomous_panic")
              ∷ [])
  unfolding act_runtime decide_runtime decide_on apply_decision assess
  poisoned_panics r clock now poisoned strict =
      let noted = note_assessment env r (assess env.trim default_snapshot idle) in
      let panicked = apply_decision env noted do_panic now in
      let told = trigger_panic (bytes "autonomous_panic") ∷ [] in
      ap (λ t. (act_runtime env t now).commands) (blind_assess r clock poisoned)
      ∙ (ap
            (λ d.
              (set_world_state env (apply_decision env noted d now) (bytes "ready") now).commands)
            (default_panics r.policy strict)
          ∙ (commands-set_world_state panicked (bytes "ready") now
              ∙ (ap (λ cs. cs ++ told) (commands-set_world_state noted (bytes "panic") now)
                  ∙ append_assoc r.commands
                      (observe_signal (bytes "ghost:assess:isolated_node") ∷ []) told)))
