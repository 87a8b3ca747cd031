-- ===== src/World/Counts.antt =====
-- src/world_state.rs: the counts that the world shows are those of its registry.
use ess_p2p_rs.Shared.{
  ℕ, ◌≡◌, refl, sym, ap, ◌∙◌, Bool, false, not, Option, some, List, [], ◌∷◌, Text, bytes, length,
  is_empty, All, arith, inl, inr, ◌⊎◌,
}
use ess_p2p_rs.Shared.Order.{text_ord}
use ess_p2p_rs.Shared.Dict.{Dict, lookup}
use ess_p2p_rs.Authority.Manager.{Crypto}
use ess_p2p_rs.World.{
  PeerState, WorldState, bump, set_authority, register_peer_pubkey, observe_signal, set_ghost_state,
  set_health_level,
}
use ess_p2p_rs.World.Peers.{
  role_of, trusted_of, connected_of, count, with_registry, registry_counts,
  peer_counts_from_registry, sync_ghost_from_registry, upsert_peer_state, set_peer_connected,
  set_peer_role, set_peer_trusted, change_peer, add_route, remove_route, set_local_profile,
  mark_peer_activated, activate, on_activation_notify,
}
use ess_p2p_rs.World.Snapshot.{apply_snapshot}
use ess_p2p_rs.World.Run.{
  Op, signal, authority, ghost_state, health_level, counts, upsert, connected, trusted, role, route,
  no_route, profile, mark, notified, approved, pubkey, restore, apply, run,
}

abbrev pub shown_counts : WorldState → ℕ × ℕ × ℕ × ℕ
shown_counts w =
    (w.ghost.connected_count, w.ghost.known_count, w.ghost.route_count, w.ghost.trusted_count)

-- The counts that are shown are those of the registry, unless it is empty.
abbrev pub IsCounted : WorldState → Type 0
IsCounted w = (w.peer_registry ≡ []) ⊎ (shown_counts w ≡ registry_counts w.peer_registry)

sync_nonempty :
    (w : WorldState) (m : Dict Text PeerState)
    → w.peer_registry ≡ m
    → IsCounted (sync_ghost_from_registry w)
unfolding sync_ghost_from_registry peer_counts_from_registry
sync_nonempty w [] e = inl e
sync_nonempty w (p ∷ m) e =
    let some_peer : is_empty w.peer_registry ≡ false = ap is_empty e in inr (rw some_peer refl)

with_registry-IsCounted :
    (w : WorldState) (m : Dict Text PeerState) (now : ℕ) → IsCounted (with_registry w m now)
unfolding with_registry bump
with_registry-IsCounted w m now = sync_nonempty (record w { peer_registry = m }) m refl

upsert_peer_state-IsCounted :
    (w : WorldState) (p : Text) (r : Option Text) (c : Bool) (t : Option Bool) (now : ℕ)
    → IsCounted (upsert_peer_state w p r c t now)
unfolding upsert_peer_state
upsert_peer_state-IsCounted w p r c t now = with_registry-IsCounted w _ now

set_peer_connected-IsCounted :
    (w : WorldState) (p : Text) (c : Bool) (now : ℕ) → IsCounted (set_peer_connected w p c now)
unfolding set_peer_connected
set_peer_connected-IsCounted w p c now =
    let found = lookup p w.peer_registry in
    upsert_peer_state-IsCounted w p (role_of found) c (trusted_of found) now

set_peer_role-IsCounted :
    (w : WorldState) (p r : Text) (now : ℕ) → IsCounted (set_peer_role w p r now)
unfolding set_peer_role
set_peer_role-IsCounted w p r now =
    let found = lookup p w.peer_registry in
    upsert_peer_state-IsCounted w p (some r) (connected_of found) (trusted_of found) now

set_peer_trusted-IsCounted :
    (w : WorldState) (p : Text) (t : Bool) (now : ℕ) → IsCounted (set_peer_trusted w p t now)
unfolding set_peer_trusted
set_peer_trusted-IsCounted w p t now =
    let found = lookup p w.peer_registry in
    upsert_peer_state-IsCounted w p (role_of found) (connected_of found) (some t) now

count-change_peer :
    (test : PeerState → Bool) (f : PeerState → PeerState) (p : Text) (m : Dict Text PeerState)
    → ((s : PeerState) → test (f s) ≡ test s)
    → count test (change_peer f p m) ≡ count test m
unfolding count change_peer
count-change_peer test f p [] same = refl
count-change_peer test f p ((k, s) ∷ m) same =
    ground (arith, same s, count-change_peer test f p m same)

length-change_peer :
    (f : PeerState → PeerState) (p : Text) (m : Dict Text PeerState)
    → length (change_peer f p m) ≡ length m
unfolding change_peer
length-change_peer f p [] = refl
length-change_peer f p ((k, s) ∷ m) = ground (arith, length-change_peer f p m)

activate-IsCounted :
    (w : WorldState) (p : Text) (cert : List ℕ) → IsCounted w → IsCounted (activate w p cert)
unfolding activate mark_peer_activated
activate-IsCounted w p cert (inl empty) =
    inl (ap (change_peer (λ s. record s { activation_cert = some cert }) p) empty)
activate-IsCounted w p cert (inr same) =
    let f = λ (s : PeerState). record s { activation_cert = some cert } in
    let m = w.peer_registry in
    inr (
      same
      ∙ sym (
          rw
            (
              count-change_peer (λ q. q.connected) f p m (λ s. refl),
              length-change_peer f p m,
              count-change_peer (λ q. not (is_empty q.routes)) f p m (λ s. refl),
              count-change_peer (λ q. q.trusted) f p m (λ s. refl),
            )
            refl))

-- An operation that follows the registry.
abbrev pub IsFollowing : Op × ℕ → Type 0
IsFollowing (counts c, now) = ⊥
IsFollowing (signal s ts, now) = Unit
IsFollowing o = Unit

apply-IsCounted :
    {Key : Type 0} (crypto : Crypto Key) (w : WorldState) (o : Op) (now : ℕ)
    → IsFollowing (o, now)
    → IsCounted w
    → IsCounted (apply crypto w o now)
unfolding apply bump set_authority register_peer_pubkey observe_signal set_ghost_state
    set_health_level add_route remove_route set_local_profile mark_peer_activated
    on_activation_notify apply_snapshot
apply-IsCounted crypto w (signal s ts) now f h = h
apply-IsCounted crypto w (authority auth) now f h = h
apply-IsCounted crypto w (ghost_state s) now f h = h
apply-IsCounted crypto w (health_level level) now f h = h
apply-IsCounted crypto w (counts c) now f h = absurd f
apply-IsCounted crypto w (upsert p r c t) now f h = upsert_peer_state-IsCounted w p r c t now
apply-IsCounted crypto w (connected p c) now f h = set_peer_connected-IsCounted w p c now
apply-IsCounted crypto w (trusted p t) now f h = set_peer_trusted-IsCounted w p t now
apply-IsCounted crypto w (role p r) now f h = set_peer_role-IsCounted w p r now
apply-IsCounted crypto w (route p via) now f h = with_registry-IsCounted w _ now
apply-IsCounted crypto w (no_route p via) now f h = with_registry-IsCounted w _ now
apply-IsCounted crypto w (profile p) now f h = h
apply-IsCounted crypto w (mark p) now f h = h
apply-IsCounted crypto w (notified p) now f h =
    set_peer_role-IsCounted (mark_peer_activated w p) p (bytes "client") now
apply-IsCounted crypto w (approved p cert) now f h = activate-IsCounted w p cert h
apply-IsCounted crypto w (pubkey p k) now f h = h
apply-IsCounted crypto w (restore snap) now f h = h

-- If the counts that the world state shows are those of its registry, or the registry is empty,
-- then so it is after any run of operations that do not set the counts themselves.
pub run-IsCounted :
    {Key : Type 0} (crypto : Crypto Key) (w : WorldState) (ops : List (Op × ℕ))
    → All IsFollowing ops
    → IsCounted w
    → IsCounted (run crypto w ops)
unfolding run
run-IsCounted crypto w [] f h = h
run-IsCounted crypto w (o ∷ ops) f h =
    run-IsCounted crypto (apply crypto w o.0 o.1) ops f.1 (apply-IsCounted crypto w o.0 o.1 f.0 h)
