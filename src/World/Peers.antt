-- ===== src/World/Peers.antt =====
-- src/world_state.rs: the registry of peers, the counts that follow it, and the activation of peers.
use ess_p2p_rs.Shared.{
  ℕ, suc, ◌+◌, Bool, true, false, not, ◌&&◌, Option, none, some, List, [], ◌∷◌, Text, bytes, length,
  is_empty, is_some, unwrap_or, ltb, ◌==◌, if◌then◌else◌,
}
use ess_p2p_rs.Shared.Order.{text_ord, text_eq}
use ess_p2p_rs.Shared.Dict.{Dict, lookup, insert, remove}
use ess_p2p_rs.World.{
  RouteScore, default_reputation, PeerState, LocalProfile, WorldState, bump, set_counts,
}

-- `values().filter(p).count()`
unfoldable pub count : (PeerState → Bool) → Dict Text PeerState → ℕ
count p [] = 0
count p ((k, s) ∷ m) = let rest = count p m in if p s then suc rest else rest

abbrev pub registry_counts : Dict Text PeerState → ℕ × ℕ × ℕ × ℕ
registry_counts m = (
  count (λ p. p.connected) m,
  length m,
  count (λ p. not (is_empty p.routes)) m,
  count (λ p. p.trusted) m,
)

unfoldable pub peer_counts_from_registry : WorldState → ℕ × ℕ × ℕ × ℕ
unfolding count
peer_counts_from_registry w =
    if is_empty w.peer_registry
    then (w.ghost.connected_count, w.ghost.known_count, w.ghost.route_count, w.ghost.trusted_count)
    else registry_counts w.peer_registry

unfoldable pub sync_ghost_from_registry : WorldState → WorldState
unfolding peer_counts_from_registry
sync_ghost_from_registry w = record w { ghost = set_counts w.ghost (peer_counts_from_registry w) }

-- An ASCII letter in lower case.
abbrev pub lower : ℕ → ℕ
lower c = if ltb 64 c && ltb c 91 then c + 32 else c

unfoldable pub eq_ignore_ascii_case : Text → Text → Bool
eq_ignore_ascii_case [] [] = true
eq_ignore_ascii_case [] (b ∷ t) = false
eq_ignore_ascii_case (a ∷ s) [] = false
eq_ignore_ascii_case (a ∷ s) (b ∷ t) =
    let rest = eq_ignore_ascii_case s t in if lower a == lower b then rest else false

abbrev pub names_supernode : (Text → Text) → Option Text → Bool
names_supernode trim none = false
names_supernode trim (some r) = eq_ignore_ascii_case (trim r) (bytes "supernode")

-- `trim` is `str::trim`.
abbrev pub active_supernode_count : (Text → Text) → WorldState → ℕ
active_supernode_count trim w =
    count (λ p. p.connected && names_supernode trim p.role) w.peer_registry

abbrev pub fresh_peer : Text → ℕ → PeerState
fresh_peer peer_id now = record {
  peer_id = peer_id;
  role = none;
  reputation = default_reputation;
  routes = [];
  violations = [];
  connected = false;
  trusted = false;
  last_seen = now;
  activation_cert = none;
}

abbrev pub or_kept {ℓ} : {A : Type ℓ} → Option A → Option A → Option A
or_kept none old = old
or_kept (some a) old = some a

-- The end of each change of the registry.
unfoldable pub with_registry : WorldState → Dict Text PeerState → ℕ → WorldState
unfolding sync_ghost_from_registry bump
with_registry w registry now =
    bump (sync_ghost_from_registry (record w { peer_registry = registry })) now

unfoldable pub upsert_peer_state :
    WorldState → Text → Option Text → Bool → Option Bool → ℕ → WorldState
unfolding lookup insert with_registry
upsert_peer_state w peer_id role connected trusted now =
    let entry = unwrap_or (lookup peer_id w.peer_registry) (fresh_peer peer_id now) in
    let updated = record entry {
      role = or_kept role entry.role;
      connected = connected;
      trusted = unwrap_or trusted entry.trusted;
      last_seen = now;
    } in
    with_registry w (insert peer_id updated w.peer_registry) now

abbrev pub role_of : Option PeerState → Option Text
role_of none = none
role_of (some p) = p.role

abbrev pub trusted_of : Option PeerState → Option Bool
trusted_of none = none
trusted_of (some p) = some p.trusted

abbrev pub connected_of : Option PeerState → Bool
connected_of none = false
connected_of (some p) = p.connected

unfoldable pub set_peer_connected : WorldState → Text → Bool → ℕ → WorldState
unfolding lookup upsert_peer_state
set_peer_connected w peer_id connected now =
    let found = lookup peer_id w.peer_registry in
    upsert_peer_state w peer_id (role_of found) connected (trusted_of found) now

unfoldable pub set_peer_role : WorldState → Text → Text → ℕ → WorldState
unfolding lookup upsert_peer_state
set_peer_role w peer_id role now =
    let found = lookup peer_id w.peer_registry in
    upsert_peer_state w peer_id (some role) (connected_of found) (trusted_of found) now

unfoldable pub set_peer_trusted : WorldState → Text → Bool → ℕ → WorldState
unfolding lookup upsert_peer_state
set_peer_trusted w peer_id trusted now =
    let found = lookup peer_id w.peer_registry in
    upsert_peer_state w peer_id (role_of found) (connected_of found) (some trusted) now

-- `if let Some(peer) = self.peer_registry.get_mut(peer_id)`
unfoldable pub change_peer :
    (PeerState → PeerState) → Text → Dict Text PeerState → Dict Text PeerState
change_peer f peer_id [] = []
change_peer f peer_id ((k, p) ∷ m) =
    let rest = (k, p) ∷ change_peer f peer_id m in if text_eq k peer_id then (k, f p) ∷ m else rest

-- The bits of 1.0.
abbrev pub direct_route : ℕ → RouteScore
direct_route now = record {
  hop_count = 1;
  reliability = 0x3ff0000000000000;
  last_used = now;
  failure_count = 0;
}

unfoldable pub add_route : WorldState → Text → Text → ℕ → WorldState
unfolding change_peer insert with_registry
add_route w peer_id via now =
    let changed =
      change_peer (λ p. record p { routes = insert via (direct_route now) p.routes }) peer_id
        w.peer_registry in
    with_registry w changed now

unfoldable pub remove_route : WorldState → Text → Text → ℕ → WorldState
unfolding change_peer remove with_registry
remove_route w peer_id via now =
    let changed =
      change_peer (λ p. record p { routes = remove via p.routes }) peer_id w.peer_registry in
    with_registry w changed now

unfoldable pub set_local_profile : WorldState → LocalProfile → WorldState
unfolding insert
set_local_profile w profile = record w {
  local_profile = some profile;
  activated_peers = insert profile.peer_id profile.is_activated w.activated_peers;
}

abbrev pub has_cert : Option PeerState → Bool
has_cert none = false
has_cert (some p) = is_some p.activation_cert

unfoldable pub is_peer_activated : WorldState → Text → Bool
unfolding lookup
is_peer_activated w peer_id =
    if not (unwrap_or (lookup peer_id w.activated_peers) false)
    then false
    else has_cert (lookup peer_id w.peer_registry)

unfoldable pub mark_peer_activated : WorldState → Text → WorldState
unfolding insert
mark_peer_activated w peer_id = record w { activated_peers = insert peer_id true w.activated_peers }

-- What the handler of a vote does to a peer that the supernodes have approved, with its certificate.
unfoldable pub activate : WorldState → Text → List ℕ → WorldState
unfolding mark_peer_activated change_peer
activate w target cert_data =
    let marked = mark_peer_activated w target in
    record marked {
      peer_registry =
          change_peer (λ p. record p { activation_cert = some cert_data }) target
            marked.peer_registry;
    }

-- What the handler of an activation notice does.
unfoldable pub on_activation_notify : WorldState → Text → ℕ → WorldState
unfolding mark_peer_activated set_peer_role
on_activation_notify w target now =
    set_peer_role (mark_peer_activated w target) target (bytes "client") now

abbrev pub get_allowed_peers_list : Dict Text PeerState → List Text
get_allowed_peers_list [] = []
get_allowed_peers_list ((k, p) ∷ m) = k ∷ get_allowed_peers_list m

abbrev pub get_bootstrap_addrs : WorldState → List Text
get_bootstrap_addrs w = w.authority.supernodes
