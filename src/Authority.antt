-- ===== src/Authority.antt =====
-- src/authority.rs: the data of an authority, and the decision on an action of a peer. A `PeerId` is
-- its text. SHA-256 and Ed25519 are arguments.
pub mod Permissions
pub mod Manager
use ess_p2p_rs.Shared.{
  ℕ, zero, suc, ◌/◌, ◌%◌, ◌≡◌, refl, Bool, true, false, ◌&&◌, Option, none, some, List, [], ◌∷◌,
  ◌++◌, Text, bytes, ltb, leb, is_empty, if◌then◌else◌,
}
use mathlib.Core.List.{flatten}
use ess_p2p_rs.Shared.Order.{text_ord}
use ess_p2p_rs.Shared.Dict.{Dict, KeySet, lookup}
use ess_p2p_rs.Shared.Sort.{sort, dedup, has}

pub data AuthorityError : Type 0 where
  io_error serialization_error : Text → AuthorityError
  lock_poisoned : AuthorityError
  denied : Text → AuthorityError
  invalid_signature : AuthorityError
  version_rejected : ℕ → ℕ → AuthorityError
  invalid_format : Text → AuthorityError

pub data Result {ℓ} (A : Type ℓ) : Type ℓ where
  ok : A → Result A
  err : AuthorityError → Result A

pub data Action : Type 0 where
  connect route gateway_access gateway_egress web_traffic admin_update compute_submit : Action

pub data NodeRole : Type 0 where
  blocked observer client standard gateway validator supernode : NodeRole

-- The order that `#[derive(Ord)]` gives: that of the declaration.
abbrev pub rank : NodeRole → ℕ
rank blocked = 0
rank observer = 1
rank client = 2
rank standard = 3
rank gateway = 4
rank validator = 5
rank supernode = 6

pub as_str : NodeRole → Text
as_str supernode = bytes "supernode"
as_str validator = bytes "validator"
as_str gateway = bytes "relay"
as_str standard = bytes "client"
as_str client = bytes "client"
as_str observer = bytes "client"
as_str blocked = bytes "blocked"

pub record PermissionPolicy : Type 0 where
  pub max_connections : ℕ
  pub allow_unknown_peers : Bool
  pub require_signed_messages : Bool
  pub allow_gateway_traffic : Bool
  pub allow_route_transit : Bool
  pub allow_web_traffic : Bool

abbrev pub default_policy : PermissionPolicy
default_policy = record {
  max_connections = 100;
  allow_unknown_peers = false;
  require_signed_messages = true;
  allow_gateway_traffic = true;
  allow_route_transit = true;
  allow_web_traffic = true;
}

pub record AuthorityRoot : Type 0 where
  pub name : Text
  pub issuer : Text
  pub active : Bool
  pub updated_at : ℕ

pub record AuthorityState : Type 0 where
  pub version : ℕ
  pub root : AuthorityRoot
  pub supernodes : List Text
  pub allowed_peers : Dict Text NodeRole
  pub trust_graph : Dict Text (List Text)
  pub policies : PermissionPolicy
  pub hash : List ℕ
  pub signature : List ℕ
  pub pending_peers : KeySet Text

pub record AuthorityDecision : Type 0 where
  pub peer_id : Text
  pub action : Action
  pub allowed : Bool
  pub reason : Text
  pub role : Option NodeRole
  pub timestamp : ℕ

abbrev pub default_state : AuthorityState
default_state = record {
  version = 1;
  root = record { name = bytes "ess-foundation"; issuer = []; active = true; updated_at = 0 };
  supernodes = [];
  allowed_peers = [];
  trust_graph = [];
  policies = default_policy;
  hash = [];
  signature = [];
  pending_peers = [];
}

unfoldable pub get_role : AuthorityState → Text → Option NodeRole
get_role s peer_id =
    if has peer_id s.supernodes then some supernode else lookup peer_id s.allowed_peers

unfoldable pub check_role_permission : AuthorityState → NodeRole → Action → Bool × Text
check_role_permission s role connect = (ltb (rank blocked) (rank role), bytes "connectivity_check")
check_role_permission s role route =
    (s.policies.allow_route_transit && leb (rank gateway) (rank role), bytes "route_check")
check_role_permission s role gateway_access =
    (s.policies.allow_gateway_traffic && leb (rank gateway) (rank role), bytes "gateway_check")
check_role_permission s role gateway_egress =
    (s.policies.allow_gateway_traffic && leb (rank gateway) (rank role), bytes "egress_check")
check_role_permission s role admin_update = (leb (rank validator) (rank role), bytes "admin_check")
check_role_permission s role web_traffic = (s.policies.allow_web_traffic, bytes "web_policy_check")
check_role_permission s role compute_submit =
    (leb (rank client) (rank role), bytes "compute_submit_allowed")

-- The match of `evaluate_action` on the role.
unfoldable pub decide_role : AuthorityState → Option NodeRole → Action → Bool × Text
unfolding check_role_permission
decide_role s (some blocked) action = (false, bytes "explicitly_blocked")
decide_role s (some supernode) action = (true, bytes "supernode_unlimited")
decide_role s (some r) action = check_role_permission s r action
decide_role s none action =
    if s.policies.allow_unknown_peers
    then (true, bytes "unknown_allowed_by_policy")
    else (false, bytes "unregistered_peer_denied")

unfoldable pub evaluate_action : AuthorityState → Text → Action → ℕ → AuthorityDecision
unfolding get_role decide_role
evaluate_action s peer action now_secs =
    let role = get_role s peer in
    let (allowed, reason) = decide_role s role action in
    record {
      peer_id = peer;
      action = action;
      allowed = allowed;
      reason = reason;
      role = role;
      timestamp = now_secs;
    }
