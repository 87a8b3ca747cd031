-- ===== src/Runtime/Streak.antt =====
-- src/ghost_runtime.rs: when a tick sends the engine to sleep, after whatever the runtime was asked for.
use ess_p2p_rs.Shared.{
  ℕ, suc, ◌+◌, ◌%◌, ◌^◌, ◌==◌, ◌≡◌, refl, ap, ◌∙◌, Bool, false, ◌&&◌, some, List, [], ◌∷◌, Text,
  bytes, leb, arith, if◌then◌else◌, Bool-cases, inl, inr,
}
use ess_p2p_rs.World.{WorldState}
use std.Path.{ap₂}
use ess_p2p_rs.Health.{GhostHealthSnapshot}
use ess_p2p_rs.Health.Policy.{go_to_sleep, wake_up, start_sync, send_beacon}
use ess_p2p_rs.Runtime.{
  Clock, Env, GhostRuntimeConfig, GhostRuntime, spawn_ghost_runtime, build_real_snapshot,
  count_tick,
}
use ess_p2p_rs.Runtime.Ticks.{scheduler_tick}
use ess_p2p_rs.Runtime.Run.{
  Op, step, run_ops, tick, publish, apply_now, assess_now, act_now, sync_now, beacon_now,
  zeroize_now, sleep_now, wake_now, report, metrics, signal, tamper, change_policy, set_sink,
  world_becomes, world_poisoned,
}
use ess_p2p_rs.Runtime.Idle.{
  still, idles, still-set_world_state, still-apply_decision, still-publish_event,
  idles-assess_runtime, still-act_runtime, still-update_runtime_metrics, idles-tick,
}
use ess_p2p_rs.Runtime.Calm.{AllSound, run_ops-IsCalm}
use ess_p2p_rs.Runtime.Rest.{is_tired, tick_sleeps}
use ess_p2p_rs.Runtime.Sleeps.{sleeps, one_if}

-- How many of the ticks found no peers since one found some: of what they found, the newest first.
unfoldable pub streak : List ℕ → ℕ
streak [] = 0
streak (p ∷ ps) = let rest = streak ps in if p == 0 then suc rest else 0

module _ (env : Env) where
  -- How many peers a tick finds.
  abbrev pub peers_found : GhostRuntime env → Clock → ℕ
  peers_found r clock = (build_real_snapshot env r clock.ts).connected_peers

  -- What an operation adds to what ticks have found.
  abbrev pub noted : GhostRuntime env → Op env → Clock → List ℕ → List ℕ
  noted r tick clock ps = peers_found r clock ∷ ps
  noted r o clock ps = ps

  -- What the ticks of a run found, before what ticks found earlier.
  unfoldable pub found : GhostRuntime env → List (Op env × Clock) → List ℕ → List ℕ
  found r [] ps = ps
  found r ((o, clock) ∷ ops) ps = found (step env r o clock) ops (noted r o clock ps)

  -- The count stands for what the ticks found, and the configuration is the runtime's first one.
  abbrev Counts : GhostRuntimeConfig env → GhostRuntime env → List ℕ → Type 0
  Counts config r ps = idles env (still env r) ≡ (streak ps % 2 ^ 64, config)

  counted_streak :
      (config : GhostRuntimeConfig env) (r : GhostRuntime env) (peers : ℕ) (ps : List ℕ)
      → Counts config r ps
      → ◌≡◌ {A = ℕ × GhostRuntimeConfig env}
          ((count_tick r.scheduler peers).idle_ticks, r.config)
          (streak (peers ∷ ps) % 2 ^ 64, config)
  unfolding streak
  counted_streak config r peers ps h =
      let counted : (count_tick r.scheduler peers).idle_ticks ≡ streak (peers ∷ ps) % 2 ^ 64 =
        ground (arith, ap (λ c. c.0) h) in
      ap₂ (λ (n : ℕ) (c : GhostRuntimeConfig env). (n, c)) counted (ap (λ c. c.1) h)

  step-Counts :
      (config : GhostRuntimeConfig env) (r : GhostRuntime env) (o : Op env) (clock : Clock)
      (ps : List ℕ)
      → Counts config r ps
      → Counts config (step env r o clock) (noted r o clock ps)
  unfolding step
  step-Counts config r tick clock ps h =
      idles-tick env r clock ∙ counted_streak config r (peers_found r clock) ps h
  step-Counts config r (publish kind) clock ps h =
      ap (idles env) (still-publish_event env r kind clock.now) ∙ h
  step-Counts config r (apply_now d) clock ps h =
      ap (idles env) (still-apply_decision env r d clock.now) ∙ h
  step-Counts config r assess_now clock ps h = idles-assess_runtime env r clock ∙ h
  step-Counts config r act_now clock ps h = ap (idles env) (still-act_runtime env r clock.now) ∙ h
  step-Counts config r sync_now clock ps h =
      ap (idles env) (still-apply_decision env r start_sync clock.now) ∙ h
  step-Counts config r beacon_now clock ps h =
      ap (idles env) (still-apply_decision env r send_beacon clock.now) ∙ h
  step-Counts config r zeroize_now clock ps h =
      ap (idles env) (still-set_world_state env r (bytes "zeroized") clock.now) ∙ h
  step-Counts config r sleep_now clock ps h =
      ap (idles env) (still-apply_decision env r go_to_sleep clock.now) ∙ h
  step-Counts config r wake_now clock ps h =
      ap (idles env) (still-apply_decision env r wake_up clock.now) ∙ h
  step-Counts config r (report seen) clock ps h = h
  step-Counts config r (metrics c k t) clock ps h =
      ap (idles env) (still-update_runtime_metrics env r c k t clock.now) ∙ h
  step-Counts config r (signal s) clock ps h = h
  step-Counts config r (tamper b) clock ps h = h
  step-Counts config r (change_policy p) clock ps h =
      idles-assess_runtime env (record r { policy = p }) clock ∙ h
  step-Counts config r set_sink clock ps h = h
  step-Counts config r (world_becomes w) clock ps h = h
  step-Counts config r world_poisoned clock ps h = h

  run_ops-Counts :
      (config : GhostRuntimeConfig env) (r : GhostRuntime env) (ops : List (Op env × Clock))
      (ps : List ℕ)
      → Counts config r ps
      → Counts config (run_ops env r ops) (found r ops ps)
  unfolding run_ops found
  run_ops-Counts config r [] ps h = h
  run_ops-Counts config r ((o, clock) ∷ ops) ps h =
      run_ops-Counts config (step env r o clock) ops (noted r o clock ps)
        (step-Counts config r o clock ps h)

  -- A tick is due to sleep if it and the ticks right before it found no peers, for as long as configured.
  abbrev pub is_due : GhostRuntimeConfig env → List ℕ → ℕ → Bool
  is_due config ps peers =
      leb config.sleep_after_idle_ticks (streak (peers ∷ ps) % 2 ^ 64) && (peers == 0)

  is_tired-is_due :
      (config : GhostRuntimeConfig env) (r : GhostRuntime env) (seen : GhostHealthSnapshot)
      (ps : List ℕ)
      → Counts config r ps
      → is_tired env r seen ≡ is_due config ps seen.connected_peers
  unfolding is_tired streak
  is_tired-is_due config r seen ps h =
      let after = ap (λ c. c.1.sleep_after_idle_ticks) h in
      elim (Bool-cases (seen.connected_peers == 0)) [
        | inl alone ↦ ground (arith, alone, after, ap (λ c. c.0) h)
        | inr among ↦ ground (arith, among)
      ]

  -- Take a new runtime that is not configured to sync every zero ticks, and that has been asked for
  -- anything whatever, except that nobody poisoned the world's lock or had it apply the decision to
  -- panic. Its next tick then goes through, and tells the engine to sleep once if this tick finds
  -- no peers and the ticks in a row up to it that found none (their number in 64 bits) are as many
  -- as configured; else not at all.
  pub idle_sleeps :
      (node_id role : Text) (config : GhostRuntimeConfig env) (w : WorldState)
      (ops : List (Op env × Clock)) (clock : Clock)
      → AllSound env ops
      → (config.sync_every_ticks == 0) ≡ false
      → let start = spawn_ghost_runtime env node_id role config w in
        let r = run_ops env start ops in
        (t : GhostRuntime env) × (scheduler_tick env r clock ≡ some t)
        × (sleeps t.commands
            ≡ sleeps r.commands + one_if (is_due config (found start ops []) (peers_found r clock)))
  unfolding streak
  idle_sleeps node_id role config w ops clock sound often =
      let start = spawn_ghost_runtime env node_id role config w in
      let r = run_ops env start ops in
      let calm =
        run_ops-IsCalm env start ops sound (record { sound = refl; tame = tt; quiet = tt }) in
      let counts = run_ops-Counts config start ops [] refl in
      let (t, goes, slept) =
        tick_sleeps env r clock calm (ap (λ c. c.1.sync_every_ticks == 0) counts ∙ often) in
      (
        t,
        goes,
        slept
            ∙ ap (λ b. sleeps r.commands + one_if b)
                (is_tired-is_due config r (build_real_snapshot env r clock.ts) (found start ops [])
                  counts),
      )
