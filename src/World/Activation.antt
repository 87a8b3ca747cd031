-- ===== src/World/Activation.antt =====
-- src/world_state.rs: changes of one peer, and who becomes activated.
use ess_p2p_rs.Shared.{
  ℕ, ◌≡◌, ◌≢◌, refl, sym, ap, ◌∙◌, Bool, true, false, ◌||◌, Option, none, some, List, [], ◌∷◌, Text,
  bytes, is_some, arith, Bool-cases, inl, inr, ◌⊎◌,
}
use ess_p2p_rs.Shared.Order.{text_ord, text_eq, text_eq_iff}
use ess_p2p_rs.Shared.Dict.{Dict, lookup, insert, remove}
use ess_p2p_rs.Authority.{AuthorityState}
use ess_p2p_rs.Authority.Manager.{Crypto}
use ess_p2p_rs.World.{
  PeerState, WorldState, bump, new, set_authority, register_peer_pubkey, observe_signal,
  set_ghost_state, set_health_level, update_peers,
}
use ess_p2p_rs.World.Peers.{
  role_of, trusted_of, connected_of, with_registry, sync_ghost_from_registry, upsert_peer_state,
  set_peer_connected, set_peer_role, set_peer_trusted, change_peer, direct_route, add_route,
  remove_route, set_local_profile, has_cert, is_peer_activated, mark_peer_activated, activate,
  on_activation_notify,
}
use ess_p2p_rs.World.Snapshot.{apply_snapshot}
use ess_p2p_rs.World.Run.{
  Op, signal, authority, ghost_state, health_level, counts, upsert, connected, trusted, role, route,
  no_route, profile, mark, notified, approved, pubkey, restore, apply, run,
}
use ess_p2p_rs.World.Changes.{map_peer, lookup-change_peer, upserted, fresh_cert}

-- A vote has activated this peer.
abbrev approves : Text → Op → Bool
approves p (approved target cert) = text_eq target p
approves p o = false

-- A vote of the run has activated this peer.
unfoldable pub any_approval : Text → List (Op × ℕ) → Bool
any_approval p [] = false
any_approval p (o ∷ ops) = approves p o.0 || any_approval p ops

-- Whether the registry holds a certificate of the peer.
abbrev certified : WorldState → Text → Bool
certified w p = has_cert (lookup p w.peer_registry)

upsert-certified :
    (w : WorldState) (p q : Text) (r : Option Text) (c : Bool) (t : Option Bool) (now : ℕ)
    → certified (upsert_peer_state w p r c t now) q ≡ certified w q
upsert-certified w p q r c t now = elim (Bool-cases (text_eq p q)) [
  | inl same ↦
      let e = (text_eq_iff p q).0 same in
      ap has_cert (upserted w p q r c t now)
      ∙ rw same (
          fresh_cert (lookup p w.peer_registry) p now
          ∙ ap (λ k. has_cert (lookup k w.peer_registry)) e)
  | inr apart ↦ ap has_cert (upserted w p q r c t now ∙ rw apart refl)
]

connected-certified :
    (w : WorldState) (p q : Text) (c : Bool) (now : ℕ)
    → certified (set_peer_connected w p c now) q ≡ certified w q
unfolding set_peer_connected
connected-certified w p q c now =
    let found = lookup p w.peer_registry in
    upsert-certified w p q (role_of found) c (trusted_of found) now

role-certified :
    (w : WorldState) (p q r : Text) (now : ℕ)
    → certified (set_peer_role w p r now) q ≡ certified w q
unfolding set_peer_role
role-certified w p q r now =
    let found = lookup p w.peer_registry in
    upsert-certified w p q (some r) (connected_of found) (trusted_of found) now

trusted-certified :
    (w : WorldState) (p q : Text) (t : Bool) (now : ℕ)
    → certified (set_peer_trusted w p t now) q ≡ certified w q
unfolding set_peer_trusted
trusted-certified w p q t now =
    let found = lookup p w.peer_registry in
    upsert-certified w p q (role_of found) (connected_of found) (some t) now

same_cert :
    (f : PeerState → PeerState) (o : Option PeerState)
    → ((s : PeerState) → is_some (f s).activation_cert ≡ is_some s.activation_cert)
    → has_cert (map_peer f o) ≡ has_cert o
same_cert f none same = refl
same_cert f (some s) same = same s

changed-certified :
    (f : PeerState → PeerState) (p q : Text) (m : Dict Text PeerState)
    → ((s : PeerState) → is_some (f s).activation_cert ≡ is_some s.activation_cert)
    → has_cert (lookup q (change_peer f p m)) ≡ has_cert (lookup q m)
changed-certified f p q m same = elim (Bool-cases (text_eq p q)) [
  | inl own ↦ ap has_cert (lookup-change_peer f p q m ∙ rw own refl) ∙ same_cert f (lookup q m) same
  | inr apart ↦ ap has_cert (lookup-change_peer f p q m ∙ rw apart refl)
]

route-certified :
    (w : WorldState) (p q via : Text) (now : ℕ)
    → certified (add_route w p via now) q ≡ certified w q
unfolding add_route with_registry bump sync_ghost_from_registry
route-certified w p q via now =
    changed-certified (λ s. record s { routes = insert via (direct_route now) s.routes }) p q
      w.peer_registry (λ s. refl)

no_route-certified :
    (w : WorldState) (p q via : Text) (now : ℕ)
    → certified (remove_route w p via now) q ≡ certified w q
unfolding remove_route with_registry bump sync_ghost_from_registry
no_route-certified w p q via now =
    changed-certified (λ s. record s { routes = remove via s.routes }) p q w.peer_registry
      (λ s. refl)

approved-certified :
    (w : WorldState) (p q : Text) (cert : List ℕ)
    → certified (activate w p cert) q ≡ true
    → (text_eq p q ≡ true) ⊎ (certified w q ≡ true)
unfolding activate mark_peer_activated
approved-certified w p q cert h = elim (Bool-cases (text_eq p q)) [
  | inl own ↦ inl own
  | inr apart ↦
      let same =
        lookup-change_peer (λ s. record s { activation_cert = some cert }) p q w.peer_registry
        ∙ rw apart refl in
      inr (sym (ap has_cert same) ∙ h)
]

apply-certified :
    {Key : Type 0} (crypto : Crypto Key) (w : WorldState) (o : Op) (now : ℕ) (q : Text)
    → certified (apply crypto w o now) q ≡ true
    → (approves q o ≡ true) ⊎ (certified w q ≡ true)
unfolding apply bump set_authority register_peer_pubkey observe_signal set_ghost_state
    set_health_level update_peers set_local_profile mark_peer_activated on_activation_notify
    apply_snapshot
apply-certified crypto w (signal s ts) now q h = inr h
apply-certified crypto w (authority auth) now q h = inr h
apply-certified crypto w (ghost_state s) now q h = inr h
apply-certified crypto w (health_level level) now q h = inr h
apply-certified crypto w (counts c) now q h = inr h
apply-certified crypto w (upsert p r c t) now q h = inr (sym (upsert-certified w p q r c t now) ∙ h)
apply-certified crypto w (connected p c) now q h = inr (sym (connected-certified w p q c now) ∙ h)
apply-certified crypto w (trusted p t) now q h = inr (sym (trusted-certified w p q t now) ∙ h)
apply-certified crypto w (role p r) now q h = inr (sym (role-certified w p q r now) ∙ h)
apply-certified crypto w (route p via) now q h = inr (sym (route-certified w p q via now) ∙ h)
apply-certified crypto w (no_route p via) now q h = inr (sym (no_route-certified w p q via now) ∙ h)
apply-certified crypto w (profile p) now q h = inr h
apply-certified crypto w (mark p) now q h = inr h
apply-certified crypto w (notified p) now q h =
    inr (sym (role-certified (mark_peer_activated w p) p q (bytes "client") now) ∙ h)
apply-certified crypto w (approved p cert) now q h = approved-certified w p q cert h
apply-certified crypto w (pubkey p k) now q h = inr h
apply-certified crypto w (restore snap) now q h = inr h

run-certified :
    {Key : Type 0} (crypto : Crypto Key) (w : WorldState) (ops : List (Op × ℕ)) (q : Text)
    → certified (run crypto w ops) q ≡ true
    → (any_approval q ops ≡ true) ⊎ (certified w q ≡ true)
unfolding run any_approval
run-certified crypto w [] q h = inr h
run-certified crypto w (o ∷ ops) q h =
    elim (run-certified crypto (apply crypto w o.0 o.1) ops q h) [
      | inl later ↦ inl (ground (arith, later))
      | inr before ↦ elim (apply-certified crypto w o.0 o.1 q before) [
        | inl here ↦ inl (rw here refl)
        | inr first ↦ inr first
      ]
    ]

new_uncertified :
    {Key : Type 0} (crypto : Crypto Key) (auth : AuthorityState) (loaded : Option (Dict Text Bool))
    (now : ℕ) (q : Text)
    → certified (new crypto auth loaded now) q ≢ true
unfolding new lookup
new_uncertified crypto auth loaded now q h = ground (arith, h)

-- A peer that counts as activated after any run of operations on a new world state was activated by
-- a vote in this run, whatever the file of activated peers said and whatever notices came.
pub activated_by_vote :
    {Key : Type 0} (crypto : Crypto Key) (auth : AuthorityState) (loaded : Option (Dict Text Bool))
    (now : ℕ) (ops : List (Op × ℕ)) (q : Text)
    → is_peer_activated (run crypto (new crypto auth loaded now) ops) q ≡ true
    → any_approval q ops ≡ true
unfolding is_peer_activated
activated_by_vote crypto auth loaded now ops q h =
    let w = new crypto auth loaded now in
    let cert : certified (run crypto w ops) q ≡ true = ground (arith, h) in
    elim (run-certified crypto w ops q cert) [
      | inl voted ↦ voted
      | inr held ↦ absurd (new_uncertified crypto auth loaded now q held)
    ]
