-- ===== src/Authority/Permissions.antt =====
-- src/authority.rs: what a role may do, against a table of the least role and the policy switch of
-- each action.
use ess_p2p_rs.Shared.{
  ℕ, ◌≤◌, ◌≡◌, refl, Bool, true, false, ◌&&◌, Option, none, some, Text, leb, arith,
}
use ess_p2p_rs.Shared.Order.{text_ord}
use ess_p2p_rs.Shared.Dict.{lookup}
use ess_p2p_rs.Shared.Sort.{has}
use ess_p2p_rs.Authority.{
  Action, connect, route, gateway_access, gateway_egress, web_traffic, admin_update, compute_submit,
  NodeRole, blocked, observer, client, gateway, validator, supernode, rank, PermissionPolicy,
  AuthorityState, evaluate_action, decide_role, get_role,
}

-- The least role that may do an action.
abbrev pub least : Action → NodeRole
least connect = observer
least route = gateway
least gateway_access = gateway
least gateway_egress = gateway
least web_traffic = observer
least admin_update = validator
least compute_submit = client

-- The switch that turns an action on.
abbrev pub switched_on : PermissionPolicy → Action → Bool
switched_on p connect = true
switched_on p route = p.allow_route_transit
switched_on p gateway_access = p.allow_gateway_traffic
switched_on p gateway_egress = p.allow_gateway_traffic
switched_on p web_traffic = p.allow_web_traffic
switched_on p admin_update = true
switched_on p compute_submit = true

-- What the table lets a peer of a role do.
abbrev pub granted : PermissionPolicy → Option NodeRole → Action → Bool
granted p none action = p.allow_unknown_peers
granted p (some supernode) action = true
granted p (some r) action = leb (rank (least action)) (rank r) && switched_on p action

granted-decide :
    (s : AuthorityState) (role : Option NodeRole) (action : Action)
    → (decide_role s role action).0 ≡ granted s.policies role action
unfolding decide_role
granted-decide s none action = ground arith
granted-decide s (some blocked) action = ground arith
granted-decide s (some r) action = ground arith

-- A peer may do an action exactly when an independent table of roles and policies grants the action
-- to the role that the peer has.
pub evaluate-granted :
    (s : AuthorityState) (peer : Text) (action : Action) (now : ℕ)
    → (evaluate_action s peer action now).allowed ≡ granted s.policies (get_role s peer) action
unfolding evaluate_action
evaluate-granted s peer action now = granted-decide s (get_role s peer) action

role_mono :
    (p : PermissionPolicy) (r r' : NodeRole) (action : Action)
    → rank r ≤ rank r'
    → granted p (some r) action ≡ true
    → granted p (some r') action ≡ true
role_mono p blocked supernode action le h = refl
role_mono p supernode blocked action le h = absurd (omega arith)
role_mono p blocked blocked action le h = h
role_mono p r r' action le h = ground arith

-- Under one policy, a peer of a greater role may do every action that a peer of a lesser role may
-- do.
pub granted_monotone :
    (s t : AuthorityState) (p q : Text) (r r' : NodeRole) (action : Action) (now : ℕ)
    → s.policies ≡ t.policies
    → get_role s p ≡ some r
    → get_role t q ≡ some r'
    → rank r ≤ rank r'
    → (evaluate_action s p action now).allowed ≡ true
    → (evaluate_action t q action now).allowed ≡ true
granted_monotone s t p q r r' action now same hp hq le h = ground (
  arith,
  evaluate-granted s p action now,
  evaluate-granted t q action now,
  role_mono t.policies r r' action le,
)

-- A peer that is listed as blocked, and as no supernode, may do nothing under any policy.
pub blocked_denied :
    (s : AuthorityState) (peer : Text) (action : Action) (now : ℕ)
    → has peer s.supernodes ≡ false
    → lookup peer s.allowed_peers ≡ some blocked
    → (evaluate_action s peer action now).allowed ≡ false
unfolding get_role
blocked_denied s peer action now no_sn listed = ground (arith, evaluate-granted s peer action now)
