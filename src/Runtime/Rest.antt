-- ===== src/Runtime/Rest.antt =====
-- src/ghost_runtime.rs: when a tick sends the engine to sleep.
use ess_p2p_rs.Shared.{
  ℕ, ◌+◌, ◌%◌, ◌^◌, ◌==◌, ◌≡◌, refl, ap, ◌∙◌, Bool, true, false, ◌&&◌, inl, inr, none, some, [],
  ◌∷◌, ◌++◌, Text, bytes, leb, if_either, if_false, arith, if◌then◌else◌, Bool-cases,
}
use ess_p2p_rs.Shared.Dict.{Dict}
use ess_p2p_rs.Ghost.{idle, observe_signal, update_metrics}
use ess_p2p_rs.World.{PeerState, update_peers}
use ess_p2p_rs.World.Peers.{sync_ghost_from_registry}
use ess_p2p_rs.Health.{GhostHealthSnapshot, assess}
use ess_p2p_rs.Health.Policy.{go_to_sleep, start_sync, evaluate_reputation, evaluate_load}
use ess_p2p_rs.Runtime.{
  Clock, Env, GhostRuntime, set_world_state, apply_decision, build_real_snapshot, judge_peers,
  assess_runtime, count_tick,
}
use ess_p2p_rs.Runtime.Ticks.{
  decide_on, decide_runtime, act_runtime, update_runtime_metrics, begin_tick, scheduler_tick,
}
use ess_p2p_rs.Runtime.Tame.{decide_on-IsTameIfAny}
use ess_p2p_rs.Runtime.Calm.{begin_tick-IsCalm}
use ess_p2p_rs.Runtime.Calmness.{IsCalm, decided-IsCalm, assess_runtime-IsCalm}
use ess_p2p_rs.Runtime.Poisoned.{commands-set_world_state}
use ess_p2p_rs.Runtime.Sleeps.{
  one_if, sleeps, sleeps-append, told_sleeps, sleeps-apply_decision, sleeps_awake, reputation_awake,
  load_awake,
}

module _ (env : Env) where
  sleeps_if :
      (b : Bool) (r : GhostRuntime env) (now : ℕ)
      → sleeps (if b then apply_decision env r go_to_sleep now else r).commands
        ≡ sleeps r.commands + one_if b
  sleeps_if true r now = sleeps-apply_decision env r go_to_sleep now
  sleeps_if false r now = omega arith

  sleeps-judge_peers :
      (r : GhostRuntime env) (m : Dict Text PeerState) (now : ℕ)
      → sleeps (judge_peers env r m now).commands ≡ sleeps r.commands
  unfolding judge_peers
  sleeps-judge_peers r [] now = refl
  sleeps-judge_peers r ((peer_id, p) ∷ m) now =
      let d = evaluate_reputation env.floats r.policy peer_id (env.of_bits p.reputation.score) in
      sleeps-judge_peers (apply_decision env r d now) m now
      ∙ sleeps_awake env r d now
          (reputation_awake env r.policy peer_id (env.of_bits p.reputation.score))

  sleeps-assess_runtime :
      (r : GhostRuntime env) (clock : Clock)
      → sleeps (assess_runtime env r clock).commands ≡ sleeps r.commands
  unfolding assess_runtime
  sleeps-assess_runtime r clock =
      let marked = set_world_state env r (bytes "assessing") clock.now in
      let judged = judge_peers env marked marked.world.peer_registry clock.now in
      let a = assess env.trim (build_real_snapshot env marked clock.ts) idle in
      let unasleep =
        if_either (λ t. sleeps t.commands ≡ sleeps marked.commands) marked.poisoned marked judged
          refl (sleeps-judge_peers marked marked.world.peer_registry clock.now) in
      let told =
        sleeps-append (if marked.poisoned then marked else judged).commands
          (observe_signal (bytes "ghost:assess:" ++ a.reason) ∷ []) in
      let same = ap sleeps (commands-set_world_state env r (bytes "assessing") clock.now) in
      omega (arith, told, unasleep, same)

  sleeps_decided :
      (r : GhostRuntime env) (now : ℕ)
      → IsCalm env r
      → sleeps (apply_decision env r (decide_runtime env r) now).commands ≡ sleeps r.commands
  unfolding decide_runtime
  sleeps_decided r now c =
      sleeps_awake env r (decide_on env r.policy r.scheduler.last_assessment) now
        (decide_on-IsTameIfAny env r.policy r.scheduler.last_assessment c.tame).1

  sleeps-act_runtime :
      (r : GhostRuntime env) (now : ℕ)
      → IsCalm env r
      → sleeps (act_runtime env r now).commands ≡ sleeps r.commands
  unfolding act_runtime
  sleeps-act_runtime r now c =
      ap sleeps (
        commands-set_world_state env (apply_decision env r (decide_runtime env r) now)
          (bytes "ready") now)
      ∙ sleeps_decided r now c

  sleeps-update_runtime_metrics :
      (r : GhostRuntime env) (c k t now : ℕ)
      → sleeps (update_runtime_metrics env r c k t now).commands ≡ sleeps r.commands
  unfolding update_runtime_metrics
  sleeps-update_runtime_metrics r c k t now =
      let w = sync_ghost_from_registry (update_peers r.world (c, k, t, t) now) in
      let counted = if r.poisoned then r else record r { world = w } in
      let same =
        if_either (λ x. x.commands ≡ r.commands) r.poisoned r (record r { world = w }) refl refl in
      let told = told_sleeps env (update_metrics c k t ∷ []) counted.commands r.commands same in
      omega (arith, told)

  -- A tick is tired if it finds no peers, and the idle ticks with it are as many as configured.
  unfoldable pub is_tired : GhostRuntime env → GhostHealthSnapshot → Bool
  is_tired r seen =
      leb r.config.sleep_after_idle_ticks ((r.scheduler.idle_ticks + 1) % 2 ^ 64)
      && (seen.connected_peers == 0)

  tired_counted :
      (after ticks peers : ℕ)
      → (leb after (if peers == 0 then (ticks + 1) % 2 ^ 64 else 0) && (peers == 0))
        ≡ (leb after ((ticks + 1) % 2 ^ 64) && (peers == 0))
  tired_counted after ticks peers = elim (Bool-cases (peers == 0)) [
    | inl alone ↦ rw alone refl
    | inr among ↦ ground (arith, among)
  ]

  sleeps-begin_tick :
      (r : GhostRuntime env) (seen : GhostHealthSnapshot) (now : ℕ)
      → sleeps (begin_tick env r seen now).commands ≡ sleeps r.commands + one_if (is_tired r seen)
  unfolding begin_tick is_tired
  sleeps-begin_tick r seen now =
      let counted = record r { scheduler = count_tick r.scheduler seen.connected_peers } in
      let due = (counted.scheduler.tick_count % r.config.sync_every_ticks) == 0 in
      let synced = if due then apply_decision env counted start_sync now else counted in
      let tired =
        leb r.config.sleep_after_idle_ticks counted.scheduler.idle_ticks
        && (seen.connected_peers == 0) in
      let rested = if tired then apply_decision env synced go_to_sleep now else synced in
      let load =
        sleeps_awake env rested (evaluate_load env.floats r.policy seen.connected_peers) now
          (load_awake env r.policy seen.connected_peers) in
      let unslept =
        if_either (λ t. sleeps t.commands ≡ sleeps r.commands) due
          (apply_decision env counted start_sync now) counted
          (sleeps_awake env counted start_sync now refl) refl in
      let slept : sleeps rested.commands ≡ sleeps synced.commands + one_if tired =
        sleeps_if tired synced now in
      let same = ap one_if (
        tired_counted r.config.sleep_after_idle_ticks r.scheduler.idle_ticks
          seen.connected_peers) in
      omega (arith, load, unslept, slept, same)

  -- In a runtime that can read the world, has not told the engine to panic, has no assessment or
  -- one on which no policy panics or sleeps, and is not to sync every zero ticks, a tick goes
  -- through and tells the engine to sleep once if it is tired; else not at all.
  pub tick_sleeps :
      (r : GhostRuntime env) (clock : Clock)
      → IsCalm env r
      → (r.config.sync_every_ticks == 0) ≡ false
      → (t : GhostRuntime env) × (scheduler_tick env r clock ≡ some t)
        × (sleeps t.commands
            ≡ sleeps r.commands + one_if (is_tired r (build_real_snapshot env r clock.ts)))
  unfolding scheduler_tick
  tick_sleeps r clock c often =
      let seen = build_real_snapshot env r clock.ts in
      let begun = begin_tick env r seen clock.now in
      let decided = apply_decision env begun (decide_runtime env begun) clock.now in
      let assessed = assess_runtime env decided clock in
      let acted = act_runtime env assessed clock.now in
      let last =
        update_runtime_metrics env acted seen.connected_peers seen.known_peers seen.route_peers
          clock.now in
      let c0 = begin_tick-IsCalm env r seen clock.now c in
      let c1 = decided-IsCalm env begun clock.now c0 in
      let s0 = sleeps-begin_tick r seen clock.now in
      let s1 = sleeps_decided begun clock.now c0 in
      let s2 = sleeps-assess_runtime decided clock in
      let s3 = sleeps-act_runtime assessed clock.now (assess_runtime-IsCalm env decided clock c1) in
      let s4 =
        sleeps-update_runtime_metrics acted seen.connected_peers seen.known_peers seen.route_peers
          clock.now in
      (
        last,
        if_false (r.config.sync_every_ticks == 0) none (some last) often,
        s4 ∙ (s3 ∙ (s2 ∙ (s1 ∙ s0))),
      )
