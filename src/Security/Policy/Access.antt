-- ===== src/Security/Policy/Access.antt =====
-- src/security_runtime.rs: what `PolicyInner` allows, its bundle, and the verifiers of responses.
use ess_p2p_rs.Shared.{
  ℕ, ◌||◌, none, some, inl, inr, List, [], ◌∷◌, ◌++◌, Text, bytes, if◌then◌else◌,
}
use ess_p2p_rs.Shared.Order.{text_ord}
use ess_p2p_rs.Shared.Dict.{Dict, lookup, contains, add}
use ess_p2p_rs.Authority.{connect}
use ess_p2p_rs.Ghost.Render.{decimal}
use ess_p2p_rs.Governance.{VoteMessage}
use ess_p2p_rs.Security.{
  Result, ok, err, and_then, bad_peer_identity, bad_signature, unknown_peer_key, crypto_error,
  decode_error, ConfigBundle, GatewayResponse,
}
use ess_p2p_rs.Security.Signing.{bool_text}
use ess_p2p_rs.Security.Policy.{
  Wire, PolicyInner, key_of, policy_is_allowed, VerifiedGatewayResponse,
}
use ess_p2p_rs.Security.Policy.Messages.{verify_gateway_response}

unfoldable pub add_all : List Text → Dict Text (Unit {0}) → Dict Text (Unit {0})
add_all [] peers = peers
add_all (peer ∷ rest) peers = add_all rest (add peer peers)

unfoldable pub run_verifiers :
    List (VerifiedGatewayResponse → Result (Unit {0})) → VerifiedGatewayResponse → Result (Unit {0})
run_verifiers [] verified = ok tt
run_verifiers (v ∷ vs) verified = and_then (v verified) (λ _. run_verifiers vs verified)

module _ {ℓ} {Key : Type ℓ} where
  -- `PolicyInner::apply_config_bundle`
  unfoldable pub apply_policy_bundle : PolicyInner Key → ConfigBundle → PolicyInner Key
  unfolding add_all
  apply_policy_bundle p bundle = record p {
    policy_config = record p.policy_config {
      allowed_peers = add_all bundle.allowed_peers p.policy_config.allowed_peers;
      bootstrap_addrs = bundle.bootstrap_addrs;
    };
  }

  unfoldable pub verify_peer : PolicyInner Key → Text → ℕ → Result (Unit {0})
  verify_peer p peer_id now =
      if contains peer_id p.policy_config.allowed_peers || policy_is_allowed p peer_id connect now
      then ok tt
      else err bad_peer_identity

  unfoldable pub verify_access : PolicyInner Key → Text → Result (Unit {0})
  verify_access p action =
      if contains action p.policy_config.allowed_actions
      then ok tt
      else err (crypto_error (bytes "Action '" ++ (action ++ bytes "' not allowed by policy")))

  abbrev pub register_response_verifier :
      PolicyInner Key → (VerifiedGatewayResponse → Result (Unit {0})) → PolicyInner Key
  register_response_verifier p f = record p { response_verifiers = p.response_verifiers ++ f ∷ [] }

  unfoldable pub run_response_verifiers :
      PolicyInner Key → VerifiedGatewayResponse → Result (Unit {0})
  unfolding run_verifiers
  run_response_verifiers p verified = run_verifiers p.response_verifiers verified

unfoldable pub vote_payload : VoteMessage → Text
vote_payload vote =
    vote.proposal_id
    ++ 58
      ∷ (vote.voter
          ++ 58 ∷ (bool_text vote.approve ++ 58 ∷ (vote.nonce ++ 58 ∷ decimal vote.timestamp)))

module _ {ℓ} {Key : Type ℓ} (wire : Wire Key) where
  unfoldable pub verify_peer_key : PolicyInner Key → Text → Key → Result (Unit {0})
  verify_peer_key p peer_id public_key = elim (lookup peer_id p.peer_public_keys) [
    | none ↦ err unknown_peer_key
    | some stored ↦ if wire.same_key stored public_key then ok tt else err bad_peer_identity
  ]

  unfoldable pub verify_governance_vote : PolicyInner Key → VoteMessage → Text → Result (Unit {0})
  unfolding vote_payload
  verify_governance_vote p vote voter_peer_id = and_then (key_of p voter_peer_id) (λ key.
      elim (wire.decode vote.signature) [
        | inl e ↦ err (decode_error (bytes "bad sig"))
        | inr sig ↦ if wire.accepts key (vote_payload vote) sig then ok tt else err bad_signature
      ])

  -- `SecurityRuntime::verify_gateway_response`, whose response also passes the registered verifiers.
  unfoldable pub verify_gateway_response_fully :
      PolicyInner Key
      → Text
      → Text
      → GatewayResponse
      → ℕ
      → ℕ
      → PolicyInner Key × Result VerifiedGatewayResponse
  unfolding run_response_verifiers
  verify_gateway_response_fully p local remote resp checked now =
      let (q, outcome) = verify_gateway_response wire p local remote resp checked now in
      (
        q,
        and_then outcome (λ (status, body).
            let verified : VerifiedGatewayResponse = record { status = status; body = body } in
            and_then (run_response_verifiers q verified) (λ _. ok verified)),
      )
