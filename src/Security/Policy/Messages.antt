-- ===== src/Security/Policy/Messages.antt =====
-- src/security_runtime.rs: the verifiers of `PolicyInner`, one for each kind of message.
use ess_p2p_rs.Shared.{ℕ, Bool, not, ◌||◌, List, Text, if◌then◌else◌}
use ess_p2p_rs.Shared.Order.{text_ord}
use ess_p2p_rs.Security.{
  Result, ok, err, and_then, bad_peer_identity, bad_signature, crypto_error, ConfigBundle,
  DirectRequest, DirectResponse, ConfigRequest, ConfigResponse, GatewayRequest, GatewayResponse,
  WebRequest, WebResponse,
}
use ess_p2p_rs.Security.Signing.{
  signing_bytes_request, signing_bytes_response, signing_bytes_gateway_request,
  signing_bytes_gateway_response, signing_bytes_web_request, signing_bytes_web_response,
  signing_bytes_config_request, signing_bytes_config_response,
}
use ess_p2p_rs.Security.Policy.{Wire, PolicyInner, screened, key_of, decoded}

abbrev pub differ : Text → Text → Bool
differ a b = not (text_ord.beq a b)

-- `if to != local || from != remote { return Err(BadPeerIdentity) }`
unfoldable pub addressed : Text → Text → Text → Text → Result (Unit {0})
addressed to local from remote =
    if differ to local || differ from remote then err bad_peer_identity else ok tt

module _ {ℓ} {Key : Type ℓ} (wire : Wire Key) where
  unfoldable pub signed {κ} : {A : Type κ} → Key → List ℕ → List ℕ → A → Result A
  signed key material signature a =
      if wire.accepts key material signature then ok a else err bad_signature

  -- The key of the sender and the signature, in this order, which its material is checked against.
  unfoldable pub with_signature {κ} :
      {A : Type κ} → PolicyInner Key → Text → Text → (Key → List ℕ → Result A) → Result A
  with_signature p remote signature f =
      and_then (key_of p remote)
        (λ key. and_then (decoded (wire.decode signature)) (λ sig. f key sig))

  unfoldable pub verify_request :
      PolicyInner Key → Text → Text → DirectRequest → ℕ → ℕ → PolicyInner Key × Result Text
  unfolding addressed signed with_signature
  verify_request p local remote req checked now =
      screened p remote req.ts req.nonce checked now (λ q.
        with_signature q remote req.signature (λ key sig.
          and_then (addressed req.to local req.from remote) (λ _.
            signed key (signing_bytes_request wire.ne_bytes req req.body) sig
              (wire.from_utf8_lossy req.body))))

  unfoldable pub verify_response :
      PolicyInner Key → Text → Text → DirectResponse → ℕ → ℕ → PolicyInner Key × Result Text
  unfolding addressed signed with_signature
  verify_response p local remote resp checked now =
      screened p remote resp.ts resp.nonce checked now (λ q.
        with_signature q remote resp.signature (λ key sig.
          and_then (addressed resp.to local resp.from remote) (λ _.
            signed key (signing_bytes_response wire.ne_bytes resp resp.body) sig
              (wire.from_utf8_lossy resp.body))))

  unfoldable pub verify_response_bytes :
      PolicyInner Key → Text → Text → DirectResponse → ℕ → ℕ → PolicyInner Key × Result (List ℕ)
  unfolding addressed signed with_signature
  verify_response_bytes p local remote resp checked now =
      screened p remote resp.ts resp.nonce checked now (λ q.
        with_signature q remote resp.signature (λ key sig.
          and_then (addressed resp.to local resp.from remote)
            (λ _. signed key (signing_bytes_response wire.ne_bytes resp resp.body) sig resp.body)))

  unfoldable pub verify_config_request :
      PolicyInner Key → Text → Text → ConfigRequest → ℕ → ℕ → PolicyInner Key × Result (Unit {0})
  unfolding addressed signed with_signature
  verify_config_request p local remote req checked now =
      screened p remote req.ts req.nonce checked now (λ q.
        and_then (addressed req.to local req.from remote) (λ _.
          with_signature q remote req.signature
            (λ key sig. signed key (signing_bytes_config_request req) sig tt)))

  -- What an authentic response to a request for the configuration yields.
  unfoldable pub bundle_of : ConfigResponse → Result ConfigBundle
  bundle_of resp =
      if resp.ok then decoded (wire.parse_bundle resp.body) else err (crypto_error resp.body)

  unfoldable pub verify_config_response :
      PolicyInner Key → Text → Text → ConfigResponse → ℕ → ℕ → PolicyInner Key × Result ConfigBundle
  unfolding addressed signed with_signature bundle_of
  verify_config_response p local remote resp checked now =
      screened p remote resp.ts resp.nonce checked now (λ q.
        and_then (addressed resp.to local resp.from remote) (λ _.
          with_signature q remote resp.signature (λ key sig.
            if wire.accepts key (signing_bytes_config_response resp) sig
            then bundle_of resp
            else err bad_signature)))

  unfoldable pub verify_gateway_request :
      PolicyInner Key → Text → Text → GatewayRequest → ℕ → ℕ → PolicyInner Key × Result Text
  unfolding signed with_signature
  verify_gateway_request p local remote req checked now =
      screened p remote req.ts req.nonce checked now (λ q.
        with_signature q remote req.signature
          (λ key sig. signed key (signing_bytes_gateway_request req req.body) sig req.body))

  unfoldable pub verify_gateway_response :
      PolicyInner Key → Text → Text → GatewayResponse → ℕ → ℕ → PolicyInner Key × Result (ℕ × Text)
  unfolding addressed signed with_signature
  verify_gateway_response p local remote resp checked now =
      screened p remote resp.ts resp.nonce checked now (λ q.
        and_then (addressed resp.to local resp.from remote) (λ _.
          with_signature q remote resp.signature (λ key sig.
            signed key (signing_bytes_gateway_response resp resp.body) sig
              (resp.status, resp.body))))

  unfoldable pub verify_web_request :
      PolicyInner Key → Text → Text → WebRequest → ℕ → ℕ → PolicyInner Key × Result Text
  unfolding signed with_signature
  verify_web_request p local remote req checked now =
      screened p remote req.ts req.nonce checked now (λ q.
        with_signature q remote req.signature
          (λ key sig. signed key (signing_bytes_web_request req req.body) sig req.body))

  unfoldable pub verify_web_response :
      PolicyInner Key
      → Text
      → Text
      → WebResponse
      → ℕ
      → ℕ
      → PolicyInner Key × Result (ℕ × Text × Text)
  unfolding addressed signed with_signature
  verify_web_response p local remote resp checked now =
      screened p remote resp.ts resp.nonce checked now (λ q.
        and_then (addressed resp.to local resp.from remote) (λ _.
          with_signature q remote resp.signature (λ key sig.
            signed key (signing_bytes_web_response resp resp.body) sig
              (resp.status, resp.content_type, resp.body))))
