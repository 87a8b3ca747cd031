-- ===== src/Runtime/Tame.antt =====
-- src/ghost_runtime.rs: what a runtime assesses that can read the world, and what a policy decides on it.
use ess_p2p_rs.Shared.{
  ℕ, ◌≡◌, refl, sym, Bool, true, false, Option, none, some, Text, leb, arith, if◌then◌else◌,
}
use mathlib.Core.Path.{subst}
use ess_p2p_rs.Ghost.{idle}
use ess_p2p_rs.World.{WorldState}
use ess_p2p_rs.Health.{
  GhostHealthLevel, healthy, degraded, critical, GhostHealthRecommendation, stay_awake, to_wake,
  to_beacon, to_sleep, to_panic, GhostHealthAssessment, default_snapshot, health_score, level_of,
  recommend, assess,
}
use ess_p2p_rs.Health.Policy.{
  GhostPolicy, SystemEventKind, peer_connected, peer_disconnected, high_latency, security_reject,
  anomaly_detected, route_pressure, authority_violation, ghost_decision_executed,
  world_state_synced, sync_completed, ghost_recommendation, gateway_audit, compute_job_queued,
  compute_job_started, compute_job_completed, compute_job_failed, compute_job_cancelled, on_level,
  when_degraded, evaluate_event, decide_health, evaluate_reputation, evaluate_load,
}
use ess_p2p_rs.Health.Decisions.{
  is_panic, is_sleep, on_level_sleep, healthy_connected, healthy_high,
}
use ess_p2p_rs.World.Snapshot.{snapshot}
use ess_p2p_rs.Runtime.{Env, GhostRuntime, real_snapshot, build_real_snapshot}
use ess_p2p_rs.Runtime.Ticks.{decide_on}

module _ (env : Env) where
  -- No policy decides on this assessment to panic or to sleep.
  abbrev pub IsTame : GhostHealthAssessment → Type 0
  IsTame a =
      (p : GhostPolicy env.floats)
      → (is_panic env.trim env.floats (decide_health env.floats p idle a) ≡ false)
        × (is_sleep env.trim env.floats (decide_health env.floats p idle a) ≡ false)

  abbrev pub IsTameIfAny : Option GhostHealthAssessment → Type 0
  IsTameIfAny none = Unit {0}
  IsTameIfAny (some a) = IsTame a

  degraded_no_panic :
      (r : GhostHealthRecommendation)
      → is_panic env.trim env.floats (when_degraded env.floats r) ≡ false
  degraded_no_panic stay_awake = refl
  degraded_no_panic to_wake = refl
  degraded_no_panic to_beacon = refl
  degraded_no_panic to_sleep = refl
  degraded_no_panic to_panic = refl

  abbrev is_critical : GhostHealthLevel → Bool
  is_critical critical = true
  is_critical level = false

  on_level_panic :
      (p : GhostPolicy env.floats) (r : GhostHealthRecommendation) (level : GhostHealthLevel)
      → is_critical level ≡ false
      → is_panic env.trim env.floats (on_level env.floats p idle r level) ≡ false
  on_level_panic p r critical h = ground (arith, h)
  on_level_panic p r degraded h = degraded_no_panic r
  on_level_panic p r healthy h = ground arith

  -- A snapshot of a world that can be read is that of an operating node.
  real_score :
      (r : GhostRuntime env) (w : WorldState) (ts : Text)
      → leb 45 (health_score env.trim (real_snapshot env r (snapshot w ts))) ≡ true
  unfolding health_score
  real_score r w ts = ground arith

  pub real_snapshot-IsTame :
      (r : GhostRuntime env) (w : WorldState) (ts : Text)
      → IsTame (assess env.trim (real_snapshot env r (snapshot w ts)) idle)
  unfolding assess decide_health
  real_snapshot-IsTame r w ts p =
      let s = real_snapshot env r (snapshot w ts) in
      let score = health_score env.trim s in
      let rec = recommend s.connected_peers idle (level_of score) in
      (
        on_level_panic p rec (level_of score) (ground (arith, real_score r w ts)),
        on_level_sleep env.trim env.floats p s.connected_peers idle (level_of score)
            (λ well. healthy_connected env.trim s (healthy_high env.trim score well)),
      )

  pub event_no_panic :
      (p : GhostPolicy env.floats) (kind : SystemEventKind env.floats)
      → is_panic env.trim env.floats (evaluate_event env.floats p kind) ≡ false
  unfolding evaluate_event
  event_no_panic p (peer_connected a) = refl
  event_no_panic p (peer_disconnected a) = refl
  event_no_panic p (high_latency a b) = ground arith
  event_no_panic p (security_reject a b) = ground arith
  event_no_panic p (anomaly_detected a) = refl
  event_no_panic p (route_pressure a) = ground arith
  event_no_panic p (authority_violation a b) = refl
  event_no_panic p (ghost_decision_executed a b) = refl
  event_no_panic p (world_state_synced a) = refl
  event_no_panic p sync_completed = refl
  event_no_panic p (ghost_recommendation a) = refl
  event_no_panic p (gateway_audit a b c) = refl
  event_no_panic p (compute_job_queued a b) = refl
  event_no_panic p (compute_job_started a) = refl
  event_no_panic p (compute_job_completed a b) = refl
  event_no_panic p (compute_job_failed a b) = refl
  event_no_panic p (compute_job_cancelled a) = refl

  pub reputation_no_panic :
      (p : GhostPolicy env.floats) (peer_id : Text) (score : env.floats.F)
      → is_panic env.trim env.floats (evaluate_reputation env.floats p peer_id score) ≡ false
  unfolding evaluate_reputation
  reputation_no_panic p peer_id score = ground arith

  pub build-IsTame :
      (r : GhostRuntime env) (ts : Text)
      → r.poisoned ≡ false
      → IsTame (assess env.trim (build_real_snapshot env r ts) idle)
  unfolding build_real_snapshot
  build-IsTame r ts sound =
      subst
        (λ b. IsTame (
          assess env.trim
            (if b then default_snapshot else real_snapshot env r (snapshot r.world ts)) idle))
        (sym sound) (real_snapshot-IsTame r r.world ts)

  pub decide_on-IsTameIfAny :
      (p : GhostPolicy env.floats) (o : Option GhostHealthAssessment)
      → IsTameIfAny o
      → (is_panic env.trim env.floats (decide_on env p o) ≡ false)
        × (is_sleep env.trim env.floats (decide_on env p o) ≡ false)
  unfolding decide_on
  decide_on-IsTameIfAny p none t = (refl, refl)
  decide_on-IsTameIfAny p (some a) t = t p

  pub load_no_panic :
      (p : GhostPolicy env.floats) (peers : ℕ)
      → is_panic env.trim env.floats (evaluate_load env.floats p peers) ≡ false
  unfolding evaluate_load
  load_no_panic p peers = ground arith
