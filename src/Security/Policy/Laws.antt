-- ===== src/Security/Policy/Laws.antt =====
-- src/security_runtime.rs: what an accepted message says of its sender.
use ess_p2p_rs.Shared.{ℕ, ◌≡◌, refl, true, ◌⊎◌, inl, inr, some, List, Text, arith, Option-cases}
use ess_p2p_rs.Shared.Order.{text_ord}
use ess_p2p_rs.Shared.Dict.{lookup}
use ess_p2p_rs.Security.{ok, DirectRequest, GatewayRequest}
use ess_p2p_rs.Security.Signing.{signing_bytes_request, signing_bytes_gateway_request}
use ess_p2p_rs.Security.Replay.{check_common}
use ess_p2p_rs.Security.Replay.Window.{is_ok}
use ess_p2p_rs.Security.Policy.{Wire, PolicyInner, screen, screened, key_of, decoded}
use ess_p2p_rs.Security.Policy.Messages.{
  addressed, signed, with_signature, verify_request, verify_gateway_request,
}

decode-cases : (s : Text ⊎ List ℕ) → ((e : Text) × (s ≡ inl e)) ⊎ ((bs : List ℕ) × (s ≡ inr bs))
decode-cases (inl e) = inl (e, refl)
decode-cases (inr bs) = inr (bs, refl)

module _ {ℓ} {Key : Type ℓ} (wire : Wire Key) where
  -- What a direct request has to satisfy, besides the replay check.
  pub record IsAuthentic (p : PolicyInner Key) (local remote : Text) (req : DirectRequest)
      : Type ℓ where
    pub key : Key
    pub sig : List ℕ
    pub registered : lookup remote p.peer_public_keys ≡ some key
    pub readable : wire.decode req.signature ≡ inr sig
    pub to_local : req.to ≡ local
    pub from_remote : req.from ≡ remote
    pub verified : wire.accepts key (signing_bytes_request wire.ne_bytes req req.body) sig ≡ true

  -- A direct request is accepted only if it passes the replay check, is addressed to this node by
  -- the peer that sent it, and carries a readable signature that is accepted for its signing bytes
  -- under the key that is registered for this peer.
  pub verify_request_sound :
      (p : PolicyInner Key) (local remote : Text) (req : DirectRequest) (checked now : ℕ)
      → is_ok (verify_request wire p local remote req checked now).1 ≡ true
      → (is_ok
            (check_common p.replay_window_secs p.replay_seen remote req.ts req.nonce checked now).1
          ≡ true)
        × IsAuthentic p local remote req
  unfolding verify_request screened screen with_signature addressed signed key_of decoded
  verify_request_sound p local remote req checked now h =
      elim (Option-cases (lookup remote p.peer_public_keys)) [
        | inl absent ↦ ground (arith, h)
        | inr (key, found) ↦ elim (decode-cases (wire.decode req.signature)) [
          | inl (e, unreadable) ↦ ground (arith, h)
          | inr (sig, readable) ↦ (
            ground (arith, h, found, readable),
            record {
              key = key;
              sig = sig;
              registered = found;
              readable = readable;
              to_local = ground (arith, h, found, readable, text_ord.beq_iff req.to local);
              from_remote = ground (arith, h, found, readable, text_ord.beq_iff req.from remote);
              verified = ground (arith, h, found, readable);
            },
          )
        ]
      ]

  -- A gateway request that was accepted is accepted again with the signature that it had and any
  -- other nonce, once this nonce passes the replay check.
  pub gateway_replay :
      (p : PolicyInner Key) (local remote : Text) (req : GatewayRequest) (nonce : Text)
      (checked now checked_again again : ℕ)
      → is_ok (verify_gateway_request wire p local remote req checked now).1 ≡ true
      → is_ok
          (screen
            (verify_gateway_request wire p local remote req checked now).0
            remote
            req.ts
            nonce
            checked_again
            again).1
        ≡ true
      → (verify_gateway_request wire
          (verify_gateway_request wire p local remote req checked now).0
          local
          remote
          (record req { nonce = nonce })
          checked_again
          again).1
        ≡ ok req.body
  unfolding verify_gateway_request screened screen with_signature signed
      signing_bytes_gateway_request key_of decoded
  gateway_replay p local remote req nonce checked now checked_again again accepted unseen =
      ground (arith, accepted, unseen)
