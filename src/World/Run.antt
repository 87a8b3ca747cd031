-- ===== src/World/Run.antt =====
-- src/world_state.rs: the operations that change the world, and runs of them with the clock of each. Two
-- are handlers of src/network/runtime/events.rs.
use ess_p2p_rs.Shared.{ℕ, Bool, Option, List, [], ◌∷◌, Text}
use ess_p2p_rs.Authority.{AuthorityState}
use ess_p2p_rs.Authority.Manager.{Crypto}
use ess_p2p_rs.World.{
  LocalProfile, WorldState, set_authority, register_peer_pubkey, observe_signal, set_ghost_state,
  set_health_level, update_peers,
}
use ess_p2p_rs.World.Peers.{
  upsert_peer_state, set_peer_connected, set_peer_role, set_peer_trusted, add_route, remove_route,
  set_local_profile, mark_peer_activated, activate, on_activation_notify,
}
use ess_p2p_rs.World.Snapshot.{WorldStateSnapshot, apply_snapshot}

pub data Op : Type 0 where
  signal : Text → Text → Op
  authority : AuthorityState → Op
  ghost_state health_level : Text → Op
  counts : ℕ × ℕ × ℕ × ℕ → Op
  upsert : Text → Option Text → Bool → Option Bool → Op
  connected trusted : Text → Bool → Op
  role route no_route : Text → Text → Op
  profile : LocalProfile → Op
  mark notified : Text → Op
  approved pubkey : Text → List ℕ → Op
  restore : WorldStateSnapshot → Op

module _ {Key : Type 0} (crypto : Crypto Key) where
  unfoldable pub apply : WorldState → Op → ℕ → WorldState
  apply w (signal s ts) now = observe_signal w s ts now
  apply w (authority auth) now = set_authority crypto w auth now
  apply w (ghost_state s) now = set_ghost_state w s now
  apply w (health_level level) now = set_health_level w level now
  apply w (counts c) now = update_peers w c now
  apply w (upsert p r c t) now = upsert_peer_state w p r c t now
  apply w (connected p c) now = set_peer_connected w p c now
  apply w (trusted p t) now = set_peer_trusted w p t now
  apply w (role p r) now = set_peer_role w p r now
  apply w (route p via) now = add_route w p via now
  apply w (no_route p via) now = remove_route w p via now
  apply w (profile p) now = set_local_profile w p
  apply w (mark p) now = mark_peer_activated w p
  apply w (notified p) now = on_activation_notify w p now
  apply w (approved p cert) now = activate w p cert
  apply w (pubkey p k) now = register_peer_pubkey w p k
  apply w (restore snap) now = apply_snapshot w snap now

  unfoldable pub run : WorldState → List (Op × ℕ) → WorldState
  unfolding apply
  run w [] = w
  run w (o ∷ ops) = run (apply w o.0 o.1) ops
