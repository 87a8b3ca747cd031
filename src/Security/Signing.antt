-- ===== src/Security/Signing.antt =====
-- src/security.rs and src/message.rs: the bytes that a signature covers. `ne_bytes` is `to_ne_bytes`
-- at a width, whose order depends on the machine.
use ess_p2p_rs.Shared.{ℕ, Bool, true, false, List, [], ◌∷◌, ◌++◌, Text, bytes}
use ess_p2p_rs.Ghost.Render.{decimal}
use ess_p2p_rs.Security.{
  DirectRequest, DirectResponse, ConfigRequest, ConfigResponse, GatewayRequest, GatewayResponse,
  WebRequest, WebResponse,
}

-- `format!("{}|{}|…|{}")`
unfoldable pub barred : List Text → Text
barred [] = []
barred (t ∷ []) = t
barred (t ∷ u ∷ ts) = t ++ 124 ∷ barred (u ∷ ts)

unfoldable pub bool_text : Bool → Text
bool_text true = bytes "true"
bool_text false = bytes "false"

module _ (ne_bytes : ℕ → ℕ → List ℕ) where
  unfoldable pub signing_bytes_request : DirectRequest → List ℕ → List ℕ
  unfolding barred
  signing_bytes_request req clear_body = barred (
      req.message_id
      ∷ req.from
      ∷ req.to
      ∷ req.kind
      ∷ req.message_type
      ∷ ne_bytes 1 req.priority
      ∷ req.batch_id
      ∷ ne_bytes 4 req.batch_index
      ∷ ne_bytes 4 req.batch_size
      ∷ ne_bytes 8 req.ts
      ∷ req.nonce
      ∷ req.sender_pubkey
      ∷ clear_body
      ∷ [])

  unfoldable pub signing_bytes_response : DirectResponse → List ℕ → List ℕ
  unfolding barred bool_text
  signing_bytes_response resp clear_body = barred (
      resp.message_id
      ∷ resp.in_reply_to
      ∷ resp.from
      ∷ resp.to
      ∷ bool_text resp.ok
      ∷ resp.kind
      ∷ resp.message_type
      ∷ ne_bytes 1 resp.priority
      ∷ resp.batch_id
      ∷ ne_bytes 4 resp.batch_index
      ∷ ne_bytes 4 resp.batch_size
      ∷ ne_bytes 8 resp.ts
      ∷ resp.nonce
      ∷ resp.sender_pubkey
      ∷ clear_body
      ∷ [])

unfoldable pub signing_bytes_gateway_request : GatewayRequest → Text → List ℕ
unfolding barred
signing_bytes_gateway_request req clear_body =
    barred
      (req.message_id ∷ req.from ∷ req.to ∷ req.method ∷ req.url ∷ decimal req.ts ∷ clear_body ∷ [])

unfoldable pub signing_bytes_gateway_response : GatewayResponse → Text → List ℕ
unfolding barred
signing_bytes_gateway_response resp clear_body = barred (
    resp.message_id
    ∷ resp.in_reply_to
    ∷ resp.from
    ∷ resp.to
    ∷ decimal resp.status
    ∷ decimal resp.ts
    ∷ resp.nonce
    ∷ clear_body
    ∷ [])

unfoldable pub signing_bytes_web_request : WebRequest → Text → List ℕ
unfolding barred
signing_bytes_web_request req clear_body =
    barred
      (req.message_id ∷ req.from ∷ req.to ∷ req.method ∷ req.url ∷ decimal req.ts ∷ clear_body ∷ [])

unfoldable pub signing_bytes_web_response : WebResponse → Text → List ℕ
unfolding barred
signing_bytes_web_response resp clear_body = barred (
    resp.message_id
    ∷ resp.in_reply_to
    ∷ resp.from
    ∷ resp.to
    ∷ decimal resp.status
    ∷ resp.content_type
    ∷ decimal resp.ts
    ∷ resp.nonce
    ∷ clear_body
    ∷ [])

unfoldable pub signing_bytes_config_request : ConfigRequest → List ℕ
unfolding barred
signing_bytes_config_request req =
    barred (req.message_id ∷ req.from ∷ req.to ∷ req.kind ∷ decimal req.ts ∷ req.nonce ∷ [])

unfoldable pub signing_bytes_config_response : ConfigResponse → List ℕ
unfolding barred bool_text
signing_bytes_config_response resp = barred (
    resp.message_id
    ∷ resp.in_reply_to
    ∷ resp.from
    ∷ resp.to
    ∷ bool_text resp.ok
    ∷ decimal resp.ts
    ∷ resp.nonce
    ∷ resp.body
    ∷ [])
