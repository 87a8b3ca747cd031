-- ===== src/Tests/Security.antt =====
-- src/security_runtime.rs on a few messages.
use ess_p2p_rs.Shared.{
  ℕ, ◌≡◌, ◌≤◌, refl, true, false, inl, inr, none, [], ◌∷◌, ◌++◌, List, Text, bytes, ltb, length,
  unwrap_or, is_empty, arith, if◌then◌else◌,
}
use ess_p2p_rs.Shared.Order.{text_ord}
use ess_p2p_rs.Shared.Dict.{lookup, insert, retain}
use ess_p2p_rs.Ghost.Render.{decimal}
use ess_p2p_rs.Security.{ok, DirectRequest, GatewayRequest, ConfigBundle}
use ess_p2p_rs.Security.Signing.{barred, signing_bytes_request, signing_bytes_gateway_request}
use ess_p2p_rs.Security.Replay.{check_common, cleanup, max_nonces_per_peer}
use ess_p2p_rs.Security.Replay.Window.{is_ok}
use ess_p2p_rs.Security.Replay.Trace.{Message, check_message, check_all, no_replay}
use ess_p2p_rs.Security.Replay.Bounds.{nonces_bounded}
use ess_p2p_rs.Security.Limits.{new, check}
use ess_p2p_rs.Security.Limits.Rate.{Attempt, attempt_all, passed, recent, check_iff}
use ess_p2p_rs.Security.Policy.{Wire, PolicyInner, screen, screened, key_of, decoded}
use ess_p2p_rs.Security.Policy.Messages.{
  addressed, signed, with_signature, verify_request, verify_gateway_request,
}
use ess_p2p_rs.Security.Policy.Laws.{IsAuthentic, verify_request_sound, gateway_replay}
use ess_p2p_rs.Security.Policy

abbrev a : Text
a = bytes "a"

abbrev b : Text
b = bytes "b"

abbrev message : Text → ℕ → Message
message nonce now = record { peer = a; ts = 1000; nonce = nonce; checked = now; now = now }

no_replay_example :
    is_ok
      (check_common 300
        (check_all 300
          (check_message 300
            (check_all 300 [] (message (bytes "m") 990 ∷ []))
            (message (bytes "n") 1000)).0
          (message (bytes "o") 1100 ∷ []))
        a
        1000
        (bytes "n")
        1200
        1200).1
    ≡ false
unfolding check_common cleanup lookup retain insert
no_replay_example =
    no_replay 300 (message (bytes "m") 990 ∷ []) (message (bytes "n") 1000)
      (message (bytes "o") 1100 ∷ []) 1000 1200 1200 refl (ground arith, tt) (ground arith)

nonces_bounded_example :
    length (
      unwrap_or
        (lookup a (check_all 300 [] (message (bytes "m") 990 ∷ message (bytes "n") 1000 ∷ [])))
        [])
    ≤ max_nonces_per_peer
nonces_bounded_example =
    nonces_bounded 300 (message (bytes "m") 990 ∷ message (bytes "n") 1000 ∷ []) a

abbrev attempts : List Attempt
attempts = (a, 1) ∷ (b, 2) ∷ (a, 50) ∷ (a, 61) ∷ []

check_iff_example :
    (check (attempt_all (new 2 60) attempts) a 62).1
    ≡ ltb (recent 60 62 (passed (new 2 60) a attempts)) 2
check_iff_example =
    check_iff 2 60 attempts a 62 (ground arith, (ground arith, (ground arith, (ground arith, tt))))
      (ground arith)

abbrev bundle : ConfigBundle
bundle = record {
  role = [];
  policy_version = 1;
  allowed_peers = [];
  bootstrap_addrs = [];
  issued_at = 0;
}

-- A signature is the key and what it covers, and is sent as it is.
abbrev pub wire : Wire ℕ
wire = record {
  decode = λ text. if is_empty text then inl (bytes "empty") else inr text;
  accepts = λ key material sig. text_ord.beq sig (key ∷ material);
  same_key = λ k l. text_ord.beq (k ∷ []) (l ∷ []);
  parse_bundle = λ text. inr bundle;
  from_utf8_lossy = λ body. body;
  ne_bytes = λ width n. n ∷ [];
}

abbrev policy : PolicyInner ℕ
policy = record (Policy.new b) { peer_public_keys = (a, 7) ∷ [] }

abbrev unsigned : DirectRequest
unsigned = record {
  message_id = bytes "id";
  from = a;
  to = b;
  kind = bytes "message";
  message_type = bytes "data";
  priority = 5;
  batch_id = [];
  batch_index = 0;
  batch_size = 0;
  body = bytes "hi";
  nonce = bytes "n";
  ts = 1000;
  encrypted = false;
  sender_pubkey = [];
  sender_role = none;
  signature = [];
}

abbrev request : DirectRequest
request = record unsigned {
  signature =
      7 ∷ bytes "id|a|b|message|data|"
      ++ (5 ∷ 124 ∷ 124 ∷ 0 ∷ 124 ∷ 0 ∷ 124 ∷ 1000 ∷ 124 ∷ bytes "n||hi");
}

verify_request_sound_example :
    (is_ok (check_common 300 [] a 1000 (bytes "n") 1001 1002).1 ≡ true)
    × IsAuthentic wire policy b a request
unfolding verify_request screened screen with_signature addressed signed key_of decoded
    signing_bytes_request barred check_common cleanup lookup retain insert
verify_request_sound_example = verify_request_sound wire policy b a request 1001 1002 refl

abbrev gateway_request : GatewayRequest
gateway_request = record {
  message_id = bytes "id";
  tracing_id = [];
  from = a;
  to = b;
  kind = bytes "gateway_request";
  method = bytes "GET";
  url = bytes "u";
  headers = [];
  body = bytes "hi";
  route = [];
  nonce = bytes "n";
  ts = 1000;
  encrypted = false;
  sender_pubkey = [];
  signature = 7 ∷ bytes "id|a|b|GET|u|" ++ (decimal 1000 ++ bytes "|hi");
}

gateway_replay_example :
    (verify_gateway_request wire
      (verify_gateway_request wire policy b a gateway_request 1001 1002).0
      b
      a
      (record gateway_request { nonce = bytes "m" })
      1003
      1004).1
    ≡ ok (bytes "hi")
unfolding verify_gateway_request screened screen with_signature signed key_of decoded
    signing_bytes_gateway_request barred check_common cleanup lookup retain insert decimal
gateway_replay_example =
    gateway_replay wire policy b a gateway_request (bytes "m") 1001 1002 1003 1004 refl refl
