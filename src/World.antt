-- ===== src/World.antt =====
-- src/world_state.rs: what a node knows of itself, of its peers and of its services. `now` is the clock in
-- seconds and `ts` the clock as text. An `f64` is the number of its 64 bits.
pub mod Peers
pub mod Snapshot
pub mod Run
pub mod Counts
pub mod Log
pub mod Changes
pub mod Activation
use ess_p2p_rs.Shared.{
  ℕ, zero, suc, ◌+◌, ◌/◌, ◌%◌, ◌^◌, Bool, true, false, Option, none, some, List, [], ◌∷◌, ◌++◌,
  Text, bytes, length, drop, ltb, if◌then◌else◌,
}
use ess_p2p_rs.Shared.Order.{text_ord}
use ess_p2p_rs.Shared.Dict.{Dict, lookup, insert}
use ess_p2p_rs.Ghost.Render.{hex_digits}
use ess_p2p_rs.Authority.{Action, AuthorityState}
use ess_p2p_rs.Authority.Manager.{Crypto, compute_hash}

pub record RouteScore : Type 0 where
  pub hop_count : ℕ
  pub reliability : ℕ
  pub last_used : ℕ
  pub failure_count : ℕ

pub record PolicyViolation : Type 0 where
  pub timestamp : ℕ
  pub action : Action
  pub reason : Text
  pub severity : ℕ

pub record AuthorityPolicySnapshot : Type 0 where
  pub version : ℕ
  pub supernodes : List Text
  pub allowed_peer_count : ℕ
  pub max_connections : ℕ
  pub allow_unknown_peers : Bool
  pub require_signed_messages : Bool

pub record PeerReputation : Type 0 where
  pub score : ℕ
  pub is_quarantined : Bool
  pub successful_ops : ℕ
  pub last_latency : ℕ

-- The bits of 0.5 and of 200.0.
abbrev pub default_reputation : PeerReputation
default_reputation = record {
  score = 0x3fe0000000000000;
  is_quarantined = false;
  successful_ops = 0;
  last_latency = 0x4069000000000000;
}

pub record PeerState : Type 0 where
  pub peer_id : Text
  pub role : Option Text
  pub reputation : PeerReputation
  pub routes : Dict Text RouteScore
  pub violations : List PolicyViolation
  pub connected : Bool
  pub trusted : Bool
  pub last_seen : ℕ
  pub activation_cert : Option (List ℕ)

pub record ServiceState : Type 0 where
  pub service_id : Text
  pub status : Text
  pub healthy : Bool
  pub last_signal : Option Text
  pub last_error : Option Text
  pub updated_at : Text

pub record GhostState : Type 0 where
  pub state : Text
  pub health_level : Text
  pub decision_count : ℕ
  pub connected_count : ℕ
  pub known_count : ℕ
  pub route_count : ℕ
  pub trusted_count : ℕ

abbrev pub default_ghost : GhostState
default_ghost = record {
  state = [];
  health_level = [];
  decision_count = 0;
  connected_count = 0;
  known_count = 0;
  route_count = 0;
  trusted_count = 0;
}

pub record WorldEvent : Type 0 where
  pub ts : Text
  pub source : Text
  pub signal : Text
  pub revision : ℕ

-- src/onboarding.rs
pub record LocalProfile : Type 0 where
  pub name : Text
  pub email : Text
  pub peer_id : Text
  pub serial_number : Text
  pub is_activated : Bool
  pub x25519_pubkey : Text

pub record WorldState : Type 0 where
  pub revision : ℕ
  pub last_updated : ℕ
  pub authority : AuthorityPolicySnapshot
  pub authority_hash : Option Text
  pub peer_registry : Dict Text PeerState
  pub service_registry : Dict Text ServiceState
  pub ghost : GhostState
  pub event_log : List WorldEvent
  pub network_status : Text
  pub local_profile : Option LocalProfile
  pub activated_peers : Dict Text Bool
  pub peer_x25519_pubkeys : Dict Text (List ℕ)

abbrev pub hex_string : List ℕ → Text
hex_string [] = []
hex_string (b ∷ bs) = hex_digits 2 b ++ hex_string bs

abbrev pub authority_policy_snapshot : AuthorityState → AuthorityPolicySnapshot
authority_policy_snapshot auth = record {
  version = auth.version;
  supernodes = auth.supernodes;
  allowed_peer_count = length auth.allowed_peers;
  max_connections = auth.policies.max_connections;
  allow_unknown_peers = auth.policies.allow_unknown_peers;
  require_signed_messages = auth.policies.require_signed_messages;
}

unfoldable pub bump : WorldState → ℕ → WorldState
bump w now = record w { revision = (w.revision + 1) % 2 ^ 64; last_updated = now }

abbrev pub loaded_or : Option (Dict Text Bool) → Dict Text Bool
loaded_or none = []
loaded_or (some loaded) = loaded

module _ {Key : Type 0} (crypto : Crypto Key) where
  -- `loaded` is what the file of activated peers holds, if it can be read.
  unfoldable pub new : AuthorityState → Option (Dict Text Bool) → ℕ → WorldState
  unfolding compute_hash
  new authority loaded now = record {
    revision = 0;
    last_updated = now;
    authority = authority_policy_snapshot authority;
    authority_hash = some (hex_string (compute_hash crypto authority));
    peer_registry = [];
    service_registry = [];
    ghost = default_ghost;
    event_log = [];
    network_status = bytes "booting";
    local_profile = none;
    activated_peers = loaded_or loaded;
    peer_x25519_pubkeys = [];
  }

  unfoldable pub set_authority : WorldState → AuthorityState → ℕ → WorldState
  unfolding compute_hash bump
  set_authority w auth now =
      bump
        (record w {
          authority = authority_policy_snapshot auth;
          authority_hash = some (hex_string (compute_hash crypto auth));
        })
        now

unfoldable pub register_peer_pubkey : WorldState → Text → List ℕ → WorldState
unfolding insert
register_peer_pubkey w peer pk = record w {
  peer_x25519_pubkeys = insert peer pk w.peer_x25519_pubkeys;
}

-- At most 256 events are kept.
abbrev pub pop_front : List WorldEvent → List WorldEvent
pop_front log = if ltb 256 (length log) then drop 1 log else log

unfoldable pub observe_signal : WorldState → Text → Text → ℕ → WorldState
unfolding bump
observe_signal w signal ts now =
    let event : WorldEvent = record {
      ts = ts;
      source = bytes "system";
      signal = signal;
      revision = w.revision;
    } in
    bump (record w { event_log = pop_front (w.event_log ++ event ∷ []) }) now

unfoldable pub set_ghost_state : WorldState → Text → ℕ → WorldState
unfolding bump
set_ghost_state w state now = bump (record w { ghost = record w.ghost { state = state } }) now

unfoldable pub set_health_level : WorldState → Text → ℕ → WorldState
unfolding bump
set_health_level w level now =
    bump (record w { ghost = record w.ghost { health_level = level } }) now

abbrev pub set_counts : GhostState → ℕ × ℕ × ℕ × ℕ → GhostState
set_counts g counts = record g {
  connected_count = counts.0;
  known_count = counts.1;
  route_count = counts.2;
  trusted_count = counts.3;
}

unfoldable pub update_peers : WorldState → ℕ × ℕ × ℕ × ℕ → ℕ → WorldState
unfolding bump
update_peers w counts now = bump (record w { ghost = set_counts w.ghost counts }) now
