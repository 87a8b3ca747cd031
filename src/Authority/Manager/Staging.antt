-- ===== src/Authority/Manager/Staging.antt =====
-- src/authority.rs: peers of a config bundle wait as pending until they are confirmed.
use ess_p2p_rs.Shared.{
  ℕ, ◌≤◌, ◌≡◌, refl, Bool, true, false, not, ◌&&◌, ◌||◌, none, some, List, [], ◌∷◌, Text, ltb,
  length, if◌then◌else◌, arith,
}
use ess_p2p_rs.Shared.Order.{text_ord, beq_refl}
use ess_p2p_rs.Shared.Dict
use ess_p2p_rs.Shared.Dict.{
  lookup, contains_key, contains-add, contains-remove, lookup-insert, lookup-remove,
}
use ess_p2p_rs.Shared.Sort.{has, has-sort, has-dedup, sort}
use ess_p2p_rs.Authority.{AuthorityState, Action, client, supernode, get_role}
use ess_p2p_rs.Authority.Permissions.{evaluate-granted}
use ess_p2p_rs.Authority.Manager.{
  Crypto, AuthorityManager, is_allowed, stage_peer, stage_peers, apply_config_bundle, promote,
  confirm_pending_peers, canonicalize,
}

-- What a decision reads is kept.
abbrev SameRights : AuthorityState → AuthorityState → Type 0
SameRights s t =
    (s.supernodes ≡ t.supernodes) × (s.allowed_peers ≡ t.allowed_peers) × (s.policies ≡ t.policies)

get_role_rights :
    (s t : AuthorityState) (peer : Text) → SameRights s t → get_role s peer ≡ get_role t peer
unfolding get_role
get_role_rights s t peer h = rw (h.0, h.1) refl

stage_peers-rights : (s : AuthorityState) (peers : List Text) → SameRights (stage_peers s peers) s
unfolding stage_peers
stage_peers-rights s [] = (refl, refl, refl)
stage_peers-rights s (p ∷ ps) = ground (arith, stage_peers-rights (stage_peer s p) ps)

-- A config bundle changes nobody's rights.
pub apply_config_bundle-is_allowed :
    (m : AuthorityManager) (bundle : List Text) (peer : Text) (action : Action) (now : ℕ)
    → is_allowed (apply_config_bundle m bundle).0 peer action now ≡ is_allowed m peer action now
unfolding apply_config_bundle is_allowed
apply_config_bundle-is_allowed m bundle peer action now =
    let rights = stage_peers-rights m.state bundle in
    ground (
      arith,
      evaluate-granted m.state peer action now,
      evaluate-granted (stage_peers m.state bundle) peer action now,
      rights.2,
      get_role_rights (stage_peers m.state bundle) m.state peer rights,
    )

-- After a bundle exactly those peers are pending that were pending, or are in the bundle and not
-- among the allowed peers.
pub pending-stage_peers :
    (s : AuthorityState) (bundle : List Text) (peer : Text)
    → Dict.contains peer (stage_peers s bundle).pending_peers ≡ (
        Dict.contains peer s.pending_peers
        || (has peer bundle && not (contains_key peer s.allowed_peers)))
unfolding stage_peers has
pending-stage_peers s [] peer = ground arith
pending-stage_peers s (p ∷ ps) peer = ground (
  arith,
  pending-stage_peers (stage_peer s p) ps peer,
  contains-add p peer s.pending_peers,
  text_ord.beq_iff p peer,
)

-- A peer that is pending has no role of its own yet.
abbrev pub IsStaged : AuthorityState → Type 0
IsStaged s =
    (peer : Text) → Dict.contains peer s.pending_peers ≡ true → lookup peer s.allowed_peers ≡ none

pub stage_peers-IsStaged :
    (s : AuthorityState) (bundle : List Text) → IsStaged s → IsStaged (stage_peers s bundle)
stage_peers-IsStaged s bundle v peer h =
    ground (arith, pending-stage_peers s bundle peer, stage_peers-rights s bundle, v peer)

module _ {ℓ} {Key : Type ℓ} (crypto : Crypto Key) where
  promote-get_role :
      (s : AuthorityState) (p peer : Text)
      → get_role (promote crypto s p) peer ≡ (
          if has peer s.supernodes
          then some supernode
          else if text_ord.beq p peer
          then some client
          else lookup peer s.allowed_peers)
  unfolding promote canonicalize get_role
  promote-get_role s p peer = ground (
    arith,
    has-dedup peer (sort s.supernodes),
    has-sort peer s.supernodes,
    lookup-insert p peer client s.allowed_peers,
  )

  role_unfold :
      (s : AuthorityState) (peer : Text)
      → get_role s peer
        ≡ (if has peer s.supernodes then some supernode else lookup peer s.allowed_peers)
  unfolding get_role
  role_unfold s peer = refl

  promote-policies : (s : AuthorityState) (p : Text) → (promote crypto s p).policies ≡ s.policies
  unfolding promote canonicalize
  promote-policies s p = refl

  promote-pending :
      (s : AuthorityState) (p peer : Text)
      → Dict.contains peer (promote crypto s p).pending_peers
        ≡ (not (text_ord.beq p peer) && Dict.contains peer s.pending_peers)
  unfolding promote canonicalize
  promote-pending s p peer = contains-remove p peer s.pending_peers

  promote-allowed :
      (s : AuthorityState) (p peer : Text)
      → lookup peer (promote crypto s p).allowed_peers
        ≡ (if text_ord.beq p peer then some client else lookup peer s.allowed_peers)
  unfolding promote canonicalize
  promote-allowed s p peer = lookup-insert p peer client s.allowed_peers

  pub promote-IsStaged :
      (s : AuthorityState) (p : Text) → IsStaged s → IsStaged (promote crypto s p)
  promote-IsStaged s p v peer h =
      ground (arith, promote-pending s p peer, promote-allowed s p peer, v peer)

  -- The test that a confirmation passes.
  abbrev pub confirms : AuthorityManager → Text → List Text → ℕ → Bool
  confirms m p by required =
      not (ltb (length by) required) && (not m.poisoned && Dict.contains p m.state.pending_peers)

  -- A confirmation by enough names, behind a sound lock, makes a pending peer a client, unless it
  -- is a supernode, takes it off the pending list, and changes no other peer; a call that does not
  -- meet this changes nobody; the policies stay in any case.
  pub confirm_pending_peers_lem :
      (m : AuthorityManager) (p peer : Text) (by : List Text) (required : ℕ)
      → let after = (confirm_pending_peers crypto m p by required).0 in
        let hit = confirms m p by required && text_ord.beq p peer in
        (get_role after.state peer ≡ (
          if hit && not (has peer m.state.supernodes) then some client else get_role m.state peer))
        × (Dict.contains peer after.state.pending_peers
            ≡ (not hit && Dict.contains peer m.state.pending_peers))
        × (after.state.policies ≡ m.state.policies)
  unfolding confirm_pending_peers
  confirm_pending_peers_lem m p peer by required = (
    ground (arith, promote-get_role m.state p peer, role_unfold m.state peer),
    ground (arith, promote-pending m.state p peer),
    ground (arith, promote-policies m.state p),
  )

  -- A pending peer that is no supernode becomes a client if the list of confirming names, in a
  -- sound lock, is as long as required, whatever names it holds.
  pub confirm_by_one :
      (m : AuthorityManager) (p : Text) (by : List Text) (required : ℕ)
      → m.poisoned ≡ false
      → Dict.contains p m.state.pending_peers ≡ true
      → has p m.state.supernodes ≡ false
      → required ≤ length by
      → get_role (confirm_pending_peers crypto m p by required).0.state p ≡ some client
  confirm_by_one m p by required sound pending no_sn enough =
      ground (arith, confirm_pending_peers_lem m p p by required, beq_refl p)
