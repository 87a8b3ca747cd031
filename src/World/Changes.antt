-- ===== src/World/Changes.antt =====
-- src/world_state.rs: changes of one peer.
use ess_p2p_rs.Shared.{
  ℕ, ◌≡◌, refl, ap, ◌∙◌, Bool, Option, none, some, [], ◌∷◌, Text, is_some, unwrap_or, arith,
  if◌then◌else◌,
}
use ess_p2p_rs.Shared.Order.{text_ord, text_eq, text_eq_iff}
use ess_p2p_rs.Shared.Dict.{Dict, lookup, lookup-insert}
use ess_p2p_rs.World.{PeerState, WorldState, bump}
use ess_p2p_rs.World.Peers.{
  fresh_peer, or_kept, role_of, trusted_of, with_registry, sync_ghost_from_registry,
  upsert_peer_state, set_peer_connected, change_peer, has_cert,
}

abbrev pub map_peer : (PeerState → PeerState) → Option PeerState → Option PeerState
map_peer f none = none
map_peer f (some s) = some (f s)

pub lookup-change_peer :
    (f : PeerState → PeerState) (p q : Text) (m : Dict Text PeerState)
    → lookup q (change_peer f p m) ≡ (if text_eq p q then map_peer f (lookup q m) else lookup q m)
unfolding lookup change_peer
lookup-change_peer f p q [] = ground arith
lookup-change_peer f p q ((k, s) ∷ m) =
    ground (arith, text_eq_iff k p, text_eq_iff k q, text_eq_iff p q, lookup-change_peer f p q m)

pub upserted :
    (w : WorldState) (p q : Text) (r : Option Text) (c : Bool) (t : Option Bool) (now : ℕ)
    → lookup q (upsert_peer_state w p r c t now).peer_registry ≡ (
        if text_eq p q
        then some (record (unwrap_or (lookup p w.peer_registry) (fresh_peer p now)) {
          role = or_kept r (unwrap_or (lookup p w.peer_registry) (fresh_peer p now)).role;
          connected = c;
          trusted = unwrap_or t (unwrap_or (lookup p w.peer_registry) (fresh_peer p now)).trusted;
          last_seen = now;
        })
        else lookup q w.peer_registry)
unfolding upsert_peer_state with_registry bump sync_ghost_from_registry
upserted w p q r c t now = lookup-insert p q _ w.peer_registry

or_kept_self : (o : Option Text) → or_kept o o ≡ o
or_kept_self none = refl
or_kept_self (some a) = refl

pub fresh_cert :
    (o : Option PeerState) (p : Text) (now : ℕ)
    → is_some (unwrap_or o (fresh_peer p now)).activation_cert ≡ has_cert o
fresh_cert none p now = refl
fresh_cert (some s) p now = refl

kept_peer :
    (o : Option PeerState) (p : Text) (c : Bool) (now : ℕ)
    → record (unwrap_or o (fresh_peer p now)) {
      role = or_kept (role_of o) (unwrap_or o (fresh_peer p now)).role;
      connected = c;
      trusted = unwrap_or (trusted_of o) (unwrap_or o (fresh_peer p now)).trusted;
      last_seen = now;
    }
      ≡ record (unwrap_or o (fresh_peer p now)) { connected = c; last_seen = now }
kept_peer none p c now = refl
kept_peer (some s) p c now =
    ap (λ r. record s { role = r; connected = c; last_seen = now }) (or_kept_self s.role)

-- Setting whether a peer is connected changes this and the time the peer was seen, for this peer
-- only, and keeps its role, trust, routes and certificate; a peer that is new starts with none of
-- these.
pub lookup-set_peer_connected :
    (w : WorldState) (p q : Text) (c : Bool) (now : ℕ)
    → lookup q (set_peer_connected w p c now).peer_registry ≡ (
        if text_eq p q
        then some (record (unwrap_or (lookup p w.peer_registry) (fresh_peer p now)) {
          connected = c;
          last_seen = now;
        })
        else lookup q w.peer_registry)
unfolding set_peer_connected
lookup-set_peer_connected w p q c now =
    let found = lookup p w.peer_registry in
    upserted w p q (role_of found) c (trusted_of found) now
    ∙ ap (λ s. if text_eq p q then some s else lookup q w.peer_registry) (kept_peer found p c now)
