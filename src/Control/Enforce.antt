-- ===== src/Control/Enforce.antt =====
-- src/network_controller.rs: whether a peer may act, and the event that a refusal reports, which the control
-- loop answers. The controller's locks are sound, and its events reach the loop.
use ess_p2p_rs.Shared.{
  ℕ, ◌≡◌, ap, ◌∙◌, Bool, true, false, not, Option, none, some, List, [], ◌∷◌, ◌++◌, Text, bytes,
  if◌then◌else◌, if_true, if_false,
}
use ess_p2p_rs.Shared.Order.{text_ord}
use ess_p2p_rs.Shared.Dict.{Dict, lookup}
use ess_p2p_rs.Authority.{
  Action, connect, route, gateway_access, gateway_egress, web_traffic, admin_update, compute_submit,
}
use ess_p2p_rs.Authority.Manager.{AuthorityManager, is_allowed}
use ess_p2p_rs.Security.Replay.Window.{is_ok}
use ess_p2p_rs.Security.Policy.{PolicyInner, policy_is_allowed}
use ess_p2p_rs.Security.Policy.Access.{verify_access, verify_peer}
use ess_p2p_rs.World.{PeerReputation}
use ess_p2p_rs.Ghost.{GhostEngine, GhostCommand, zeroized, same}
use ess_p2p_rs.Ghost.Loop.{run_loop}
use ess_p2p_rs.Health.Policy.{SystemEventKind, authority_violation}
use ess_p2p_rs.Runtime.{Clock, Env}
use ess_p2p_rs.Control.{ControlLoop, handle_system_event}
use ess_p2p_rs.Control.Violation.{arrivals, violation_wipes}

-- The `Debug` text of an action in lower case.
abbrev pub action_text : Action → Text
action_text connect = bytes "connect"
action_text route = bytes "route"
action_text gateway_access = bytes "gatewayaccess"
action_text gateway_egress = bytes "gatewayegress"
action_text web_traffic = bytes "webtraffic"
action_text admin_update = bytes "adminupdate"
action_text compute_submit = bytes "computesubmit"

abbrev pub blocks : Option PeerReputation → Bool
blocks none = false
blocks (some r) = r.is_quarantined

-- What the controller decides by.
pub record Gate (Key : Type 0) : Type 0 where
  pub reputation : Dict Text PeerReputation
  pub security : Option (PolicyInner Key)
  pub authority : Option AuthorityManager

module _ (env : Env) where
  -- A verdict, and the events that it reports.
  abbrev pub Verdict : Type 0
  Verdict = Bool × List (SystemEventKind env.floats)

  abbrev pub refuse : Text → Action → Verdict
  refuse peer action = (false, authority_violation peer action ∷ [])

  abbrev pub by_authority : Option AuthorityManager → Text → Action → ℕ → Verdict
  by_authority none peer action now = (true, [])
  by_authority (some m) peer action now =
      if not (is_allowed m peer action now) then refuse peer action else (true, [])

  -- The control loop takes the events one after the other.
  unfoldable pub handle_all :
      ControlLoop env → List (SystemEventKind env.floats) → Clock → ControlLoop env
  unfolding handle_system_event
  handle_all c [] clock = c
  handle_all c (kind ∷ kinds) clock = handle_all (handle_system_event env c kind clock) kinds clock

module _ (env : Env) {Key : Type 0} where
  abbrev pub by_security : Option (PolicyInner Key) → Text → Action → ℕ → Verdict env → Verdict env
  by_security none peer action now rest = rest
  by_security (some p) peer action now rest =
      if not (is_ok (verify_access p (action_text action)))
      then (false, [])
      else if not (policy_is_allowed p peer action now)
      then refuse env peer action
      else rest

  unfoldable pub enforce : Gate Key → Text → Action → ℕ → Verdict env
  unfolding is_allowed verify_access policy_is_allowed lookup
  enforce g peer action now =
      if blocks (lookup peer g.reputation)
      then (false, [])
      else by_security g.security peer action now (by_authority env g.authority peer action now)

  abbrev pub peer_verified : Option (PolicyInner Key) → Text → ℕ → Bool
  peer_verified none peer now = true
  peer_verified (some p) peer now = is_ok (verify_peer p peer now)

  unfoldable pub enforce_peer : Gate Key → Text → ℕ → Verdict env
  unfolding enforce verify_peer
  enforce_peer g peer now =
      let verdict = enforce g peer connect now in
      if not verdict.0 then verdict else (peer_verified g.security peer now, verdict.1)

  -- A policy that opens the action to all, but not to this peer, reports a violation.
  enforce-refused :
      (g : Gate Key) (p : PolicyInner Key) (peer : Text) (action : Action) (now : ℕ)
      → blocks (lookup peer g.reputation) ≡ false
      → g.security ≡ some p
      → is_ok (verify_access p (action_text action)) ≡ true
      → policy_is_allowed p peer action now ≡ false
      → enforce g peer action now ≡ refuse env peer action
  unfolding enforce
  enforce-refused g p peer action now free has_policy opens refused =
      if_false _ _ _ free
      ∙ ap (λ s. by_security s peer action now (by_authority env g.authority peer action now))
          has_policy
      ∙ if_false _ _ _ (ap not opens)
      ∙ if_true _ _ _ (ap not refused)

  -- A refusal by the authority of the policy reaches the caller with its event.
  enforce_peer-refused :
      (g : Gate Key) (p : PolicyInner Key) (peer : Text) (now : ℕ)
      → blocks (lookup peer g.reputation) ≡ false
      → g.security ≡ some p
      → is_ok (verify_access p (bytes "connect")) ≡ true
      → policy_is_allowed p peer connect now ≡ false
      → enforce_peer g peer now ≡ refuse env peer connect
  unfolding enforce_peer
  enforce_peer-refused g p peer now free has_policy opens refused =
      let told = enforce-refused g p peer connect now free has_policy opens refused in
      if_true (not (enforce g peer connect now).0) (enforce g peer connect now)
        (peer_verified g.security peer now, (enforce g peer connect now).1) (ap (λ v. not v.0) told)
      ∙ told

  -- If the security policy opens connecting, but its authority does not grant it to a peer that is
  -- not quarantined, then the controller refuses the peer, and once the control loop has taken what
  -- the refusal reports, the runtime has sent commands that zeroize the engine, in whatever state
  -- the engine is, if they reach it in order.
  pub refused_wipes :
      (g : Gate Key) (p : PolicyInner Key) (peer : Text) (now : ℕ) (c : ControlLoop env)
      (clock : Clock) (e : GhostEngine) (at at_ms : ℕ)
      → blocks (lookup peer g.reputation) ≡ false
      → g.security ≡ some p
      → is_ok (verify_access p (bytes "connect")) ≡ true
      → policy_is_allowed p peer connect now ≡ false
      → (sent : List GhostCommand) × ((enforce_peer g peer now).0 ≡ false)
        × ((handle_all env c (enforce_peer g peer now).1 clock).runtime.commands
            ≡ c.runtime.commands ++ sent)
        × (same (run_loop e (arrivals at at_ms sent)).state zeroized ≡ true)
  unfolding handle_all
  refused_wipes g p peer now c clock e at at_ms free has_policy opens refused =
      let (sent, told, wiped) = violation_wipes env c peer connect clock e at at_ms in
      let refusal = enforce_peer-refused g p peer now free has_policy opens refused in
      (
        sent,
        ap (λ v. v.0) refusal,
        ap (λ v. (handle_all env c v.1 clock).runtime.commands) refusal ∙ told,
        wiped,
      )
