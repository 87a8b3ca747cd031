-- ===== src/World/Snapshot.antt =====
-- src/world_state.rs: snapshots, and what is restored from them.
use ess_p2p_rs.Shared.{ℕ, Bool, Option, none, some, List, [], ◌∷◌, ◌++◌, Text, bytes, length, take}
use ess_p2p_rs.Ghost.Render.{decimal}
use ess_p2p_rs.Shared.Dict.{Dict}
use ess_p2p_rs.Authority.{AuthorityState}
use ess_p2p_rs.Authority.Manager.{Crypto}
use ess_p2p_rs.World.{WorldEvent, WorldState, bump, new, set_authority, observe_signal}
use ess_p2p_rs.World.Peers.{peer_counts_from_registry}

pub record WorldStateSnapshot : Type 0 where
  pub authority_version : ℕ
  pub authority_hash : Option Text
  pub ghost_state : Text
  pub health_level : Text
  pub connected_peers : ℕ
  pub known_peers : ℕ
  pub route_peers : ℕ
  pub trusted_peers : ℕ
  pub peer_count : ℕ
  pub service_count : ℕ
  pub network_status : Text
  pub last_signal : Option Text
  pub last_updated_at : Option Text
  pub revision : ℕ

-- `event_log.back().map(|e| e.signal)`
abbrev pub last_signal_of : List WorldEvent → Option Text
last_signal_of [] = none
last_signal_of (e ∷ []) = some e.signal
last_signal_of (e ∷ f ∷ es) = last_signal_of (f ∷ es)

unfoldable pub snapshot : WorldState → Text → WorldStateSnapshot
unfolding peer_counts_from_registry
snapshot w ts =
    let counts = peer_counts_from_registry w in
    record {
      authority_version = w.authority.version;
      authority_hash = w.authority_hash;
      ghost_state = w.ghost.state;
      health_level = w.ghost.health_level;
      connected_peers = counts.0;
      known_peers = counts.1;
      route_peers = counts.2;
      trusted_peers = counts.3;
      peer_count = counts.1;
      service_count = length w.service_registry;
      network_status = w.network_status;
      last_signal = last_signal_of w.event_log;
      last_updated_at = some ts;
      revision = w.revision;
    }

unfoldable pub apply_snapshot : WorldState → WorldStateSnapshot → ℕ → WorldState
unfolding bump
apply_snapshot w snap now =
    bump
      (record w {
        revision = snap.revision;
        ghost = record w.ghost { state = snap.ghost_state; health_level = snap.health_level };
        network_status = snap.network_status;
        authority = record w.authority { version = snap.authority_version };
      })
      now

module _ {Key : Type 0} (crypto : Crypto Key) where
  unfoldable pub from_snapshot :
      WorldStateSnapshot → AuthorityState → Option (Dict Text Bool) → ℕ → WorldState
  unfolding new apply_snapshot
  from_snapshot snapshot authority loaded now =
      apply_snapshot (new crypto authority loaded now) snapshot now

  -- The world, behind a sound lock, with what is shown of it.
  unfoldable pub prime_control_center :
      WorldState → AuthorityState → Text → ℕ → WorldState × WorldStateSnapshot
  unfolding set_authority observe_signal snapshot
  prime_control_center w authority ts now =
      let primed =
        observe_signal (set_authority crypto w authority now) (bytes "control_center_primed") ts
          now in
      (primed, snapshot primed ts)

abbrev pub authority_hash_short : WorldStateSnapshot → Text
authority_hash_short s = elim s.authority_hash [ none ↦ bytes "none" | some h ↦ take 12 h ]

abbrev pub last_updated_display : WorldStateSnapshot → Text
last_updated_display s = elim s.last_updated_at [ none ↦ bytes "unknown" | some t ↦ t ]

abbrev pub dashboard_summary : WorldStateSnapshot → Text
dashboard_summary s =
    bytes "rev="
    ++ (decimal s.revision
        ++ (bytes " | ghost=" ++ (s.ghost_state ++ (bytes " | net=" ++ s.network_status))))
