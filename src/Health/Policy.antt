-- ===== src/Health/Policy.antt =====
-- src/ghost_policy.rs and src/system_event.rs: the decisions of the Ghost policy. `F` are the values of
-- `f64`.
use ess_p2p_rs.Shared.{ℕ, ◌==◌, Bool, true, false, ◌&&◌, Text, leb, if◌then◌else◌}
use ess_p2p_rs.Authority.{Action}
use ess_p2p_rs.Ghost.{GhostState, number}
use ess_p2p_rs.Health.{
  GhostHealthLevel, healthy, degraded, critical, GhostHealthRecommendation, to_wake, to_beacon,
  to_sleep, GhostHealthAssessment,
}

-- `f64`: its order and the literals of the source.
pub record Floats : Type 1 where
  pub F : Type 0
  pub lt : F → F → Bool
  pub f_0_05 : F
  pub f_0_1 : F
  pub f_0_2 : F
  pub f_2000 : F

module _ (floats : Floats) where
  pub record GhostPolicy : Type 0 where
    pub allow_sleep_when_healthy : Bool
    pub wake_when_no_peers : Bool
    pub beacon_when_degraded : Bool
    pub sync_when_latency_high : Bool
    pub min_reputation_to_connect : floats.F
    pub quarantine_threshold : floats.F
    pub trust_score_boost_step : floats.F
    pub drop_on_policy_denial : Bool
    pub isolate_on_severe_failure : Bool
    pub retry_on_transient_failure : Bool
    pub max_retry_count : ℕ
    pub throttle_connected_peer_threshold : ℕ
    pub degrade_peer_threshold : ℕ
    pub reroute_on_route_pressure : Bool
    pub min_trusted_peers : ℕ
    pub panic_on_critical : Bool

  abbrev pub default_policy : GhostPolicy
  default_policy = record {
    allow_sleep_when_healthy = true;
    wake_when_no_peers = true;
    beacon_when_degraded = true;
    sync_when_latency_high = true;
    min_reputation_to_connect = floats.f_0_2;
    quarantine_threshold = floats.f_0_1;
    trust_score_boost_step = floats.f_0_05;
    drop_on_policy_denial = true;
    isolate_on_severe_failure = true;
    retry_on_transient_failure = true;
    max_retry_count = 3;
    throttle_connected_peer_threshold = 64;
    degrade_peer_threshold = 128;
    reroute_on_route_pressure = true;
    min_trusted_peers = 3;
    panic_on_critical = true;
  }

  pub data GhostDecision : Type 0 where
    noop wake_up go_to_sleep send_beacon start_sync do_panic degrade : GhostDecision
    drop_peer throttle isolate_peer retry reroute : Text → GhostDecision
    adjust_reputation : Text → floats.F → GhostDecision

  pub data SystemEventKind : Type 0 where
    peer_connected peer_disconnected : Text → SystemEventKind
    high_latency : Text → floats.F → SystemEventKind
    security_reject : Text → Text → SystemEventKind
    anomaly_detected route_pressure : Text → SystemEventKind
    authority_violation : Text → Action → SystemEventKind
    ghost_decision_executed : Text → Text → SystemEventKind
    world_state_synced : ℕ → SystemEventKind
    sync_completed : SystemEventKind
    ghost_recommendation : Text → SystemEventKind
    gateway_audit : Text → Text → Bool → SystemEventKind
    compute_job_queued : Text → Text → SystemEventKind
    compute_job_started : Text → SystemEventKind
    compute_job_completed : Text → ℕ → SystemEventKind
    compute_job_failed : Text → Text → SystemEventKind
    compute_job_cancelled : Text → SystemEventKind

  unfoldable pub evaluate_event : GhostPolicy → SystemEventKind → GhostDecision
  evaluate_event policy (authority_violation peer_id action) = isolate_peer peer_id
  evaluate_event policy (security_reject peer_id reason) =
      if policy.retry_on_transient_failure then retry peer_id else drop_peer peer_id
  evaluate_event policy (high_latency peer_id latency) =
      if floats.lt floats.f_2000 latency then throttle peer_id else noop
  evaluate_event policy (route_pressure namespace) =
      if policy.reroute_on_route_pressure then reroute namespace else send_beacon
  evaluate_event policy (anomaly_detected reason) = start_sync
  evaluate_event policy kind = noop

  abbrev pub is_to_sleep : GhostHealthRecommendation → Bool
  is_to_sleep to_sleep = true
  is_to_sleep r = false

  abbrev pub when_degraded : GhostHealthRecommendation → GhostDecision
  when_degraded to_beacon = send_beacon
  when_degraded to_wake = wake_up
  when_degraded r = noop

  abbrev pub on_level :
      GhostPolicy → GhostState → GhostHealthRecommendation → GhostHealthLevel → GhostDecision
  on_level policy state recommendation critical =
      if policy.panic_on_critical then do_panic else degrade
  on_level policy state recommendation degraded = when_degraded recommendation
  on_level policy state recommendation healthy =
      if is_to_sleep recommendation && policy.allow_sleep_when_healthy
      then go_to_sleep
      else if (number state == 1) && policy.wake_when_no_peers
      then wake_up
      else noop

  unfoldable pub decide_health : GhostPolicy → GhostState → GhostHealthAssessment → GhostDecision
  decide_health policy state assessment =
      on_level policy state assessment.recommendation assessment.level

  unfoldable pub evaluate_reputation : GhostPolicy → Text → floats.F → GhostDecision
  evaluate_reputation policy peer_id score =
      if floats.lt score policy.quarantine_threshold
      then isolate_peer peer_id
      else if floats.lt score policy.min_reputation_to_connect
      then reroute peer_id
      else noop

  unfoldable pub evaluate_load : GhostPolicy → ℕ → GhostDecision
  evaluate_load policy connected_count =
      if leb policy.degrade_peer_threshold connected_count
      then degrade
      else if leb policy.throttle_connected_peer_threshold connected_count
      then start_sync
      else noop
