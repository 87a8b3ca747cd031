-- ===== src/Health.antt =====
-- src/ghost_health.rs: the health of a node, its score, and what it recommends. `trim` is that of `str`.
pub mod Policy
pub mod Decisions
use ess_p2p_rs.Shared.{
  ℕ, ◌+◌, ◌-◌, ◌==◌, Bool, true, false, not, ◌&&◌, ◌||◌, Option, none, some, List, [], ◌∷◌, Text,
  bytes, ltb, leb, if◌then◌else◌,
}
use ess_p2p_rs.Shared.Order.{text_ord, text_eq}
use ess_p2p_rs.Ghost.{GhostState, number}
use ess_p2p_rs.Ghost.Render.{starts_with}
use ess_p2p_rs.World.Peers.{lower}

pub record GhostHealthSnapshot : Type 0 where
  pub node_id : Text
  pub role : Text
  pub connected_peers : ℕ
  pub known_peers : ℕ
  pub route_peers : ℕ
  pub trusted_peers : ℕ
  pub bootstrap_ok : Bool
  pub gateway_ok : Bool
  pub web_ok : Bool
  pub config_ok : Bool
  pub tamper_detected : Bool
  pub last_failure_reason : Option Text

abbrev pub default_snapshot : GhostHealthSnapshot
default_snapshot = record {
  node_id = bytes "unknown";
  role = bytes "client";
  connected_peers = 0;
  known_peers = 0;
  route_peers = 0;
  trusted_peers = 0;
  bootstrap_ok = false;
  gateway_ok = false;
  web_ok = false;
  config_ok = false;
  tamper_detected = false;
  last_failure_reason = none;
}

unfoldable pub to_ascii_lowercase : Text → Text
to_ascii_lowercase [] = []
to_ascii_lowercase (c ∷ s) = lower c ∷ to_ascii_lowercase s

unfoldable pub contains_text : Text → Text → Bool
unfolding starts_with
contains_text needle [] = starts_with needle []
contains_text needle (b ∷ s) = starts_with needle (b ∷ s) || contains_text needle s

pub data GhostHealthLevel : Type 0 where
  healthy degraded critical : GhostHealthLevel

pub data GhostHealthRecommendation : Type 0 where
  stay_awake to_wake to_beacon to_sleep to_panic : GhostHealthRecommendation

pub record GhostHealthAssessment : Type 0 where
  pub level : GhostHealthLevel
  pub recommendation : GhostHealthRecommendation
  pub reason : Text

abbrev pub level_of : ℕ → GhostHealthLevel
level_of score = if leb 85 score then healthy else if leb 45 score then degraded else critical

abbrev pub recommend : ℕ → GhostState → GhostHealthLevel → GhostHealthRecommendation
recommend peers state critical = to_panic
recommend peers state degraded = to_beacon
recommend peers state healthy =
    if ltb 0 peers then stay_awake else if number state == 1 then to_wake else to_sleep

module _ (trim : Text → Text) where
  unfoldable pub role_norm : GhostHealthSnapshot → Text
  unfolding to_ascii_lowercase
  role_norm s = to_ascii_lowercase (trim s.role)

  unfoldable pub is_supernode : GhostHealthSnapshot → Bool
  unfolding role_norm
  is_supernode s = text_eq (role_norm s) (bytes "supernode")

  unfoldable pub is_relay : GhostHealthSnapshot → Bool
  unfolding role_norm
  is_relay s = text_eq (role_norm s) (bytes "relay")

  abbrev pub has_trusted_path : GhostHealthSnapshot → Bool
  has_trusted_path s = s.bootstrap_ok || (s.gateway_ok || (s.web_ok || ltb 0 s.trusted_peers))

  abbrev pub is_network_reachable : GhostHealthSnapshot → Bool
  is_network_reachable s = ltb 0 s.connected_peers || has_trusted_path s

  abbrev pub is_operational : GhostHealthSnapshot → Bool
  is_operational s = s.config_ok && (is_network_reachable s && not s.tamper_detected)

  abbrev pub mentions_disconnect : Option Text → Bool
  mentions_disconnect none = false
  mentions_disconnect (some r) =
      let r' = to_ascii_lowercase r in
      contains_text (bytes "disconnect") r'
      || (contains_text (bytes "closed") r' || contains_text (bytes "transport") r')

  unfoldable pub looks_like_disconnect_reason : GhostHealthSnapshot → Bool
  unfolding to_ascii_lowercase contains_text
  looks_like_disconnect_reason s = mentions_disconnect s.last_failure_reason

  -- `score` is 30 at least before the clamp, so that the subtraction is that of `i32`.
  unfoldable pub health_score : GhostHealthSnapshot → ℕ
  unfolding is_supernode is_relay looks_like_disconnect_reason
  health_score s =
      let s1 = if is_operational s then 40 + 30 else 40 in
      let s2 = if is_supernode s && s.gateway_ok then s1 + 10 else s1 in
      let s3 = if is_relay s && s.bootstrap_ok then s2 + 10 else s2 in
      let s4 = if leb 2 s.connected_peers then s3 + 10 else s3 in
      let s5 = if looks_like_disconnect_reason s then s4 - 10 else s4 in
      if s.tamper_detected then 0 else if ltb 100 s5 then 100 else s5

  unfoldable pub assess : GhostHealthSnapshot → GhostState → GhostHealthAssessment
  unfolding health_score
  assess s state =
      let level = level_of (health_score s) in
      record {
        level = level;
        recommendation = recommend s.connected_peers state level;
        reason =
            if s.tamper_detected
            then bytes "tamper_detected"
            else if s.connected_peers == 0
            then bytes "isolated_node"
            else bytes "normal_operation";
      }
