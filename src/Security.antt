-- ===== src/Security.antt =====
-- src/security.rs, src/message.rs, src/config.rs, src/gateway.rs and src/web.rs: the error taxonomy and the
-- messages that the security runtime checks. A `PeerId` is its text, a body of bytes a list of them.
pub mod Signing
pub mod Replay
pub mod Limits
pub mod Policy
use ess_p2p_rs.Shared.{ℕ, Bool, Option, List, Text}
use ess_p2p_rs.Authority.{NodeRole}

pub data SecurityError : Type 0 where
  timestamp_out_of_window replay_detected unknown_peer_key bad_peer_identity : SecurityError
  bad_signature : SecurityError
  crypto_error decode_error : Text → SecurityError

pub data Result {ℓ} (A : Type ℓ) : Type ℓ where
  ok : A → Result A
  err : SecurityError → Result A

-- `?`
abbrev pub and_then {ℓ κ} : {A : Type ℓ} {B : Type κ} → Result A → (A → Result B) → Result B
and_then (ok a) f = f a
and_then (err e) f = err e

pub record DirectRequest : Type 0 where
  pub message_id : Text
  pub from : Text
  pub to : Text
  pub kind : Text
  pub message_type : Text
  pub priority : ℕ
  pub batch_id : Text
  pub batch_index : ℕ
  pub batch_size : ℕ
  pub body : List ℕ
  pub nonce : Text
  pub ts : ℕ
  pub encrypted : Bool
  pub sender_pubkey : Text
  pub sender_role : Option NodeRole
  pub signature : Text

pub record DirectResponse : Type 0 where
  pub message_id : Text
  pub in_reply_to : Text
  pub from : Text
  pub to : Text
  pub ok : Bool
  pub kind : Text
  pub message_type : Text
  pub priority : ℕ
  pub batch_id : Text
  pub batch_index : ℕ
  pub batch_size : ℕ
  pub body : List ℕ
  pub nonce : Text
  pub ts : ℕ
  pub encrypted : Bool
  pub sender_pubkey : Text
  pub sender_role : Option NodeRole
  pub signature : Text

pub record ConfigBundle : Type 0 where
  pub role : Text
  pub policy_version : ℕ
  pub allowed_peers : List Text
  pub bootstrap_addrs : List Text
  pub issued_at : ℕ

pub record ConfigRequest : Type 0 where
  pub message_id : Text
  pub from : Text
  pub to : Text
  pub kind : Text
  pub body : Text
  pub nonce : Text
  pub ts : ℕ
  pub encrypted : Bool
  pub sender_pubkey : Text
  pub signature : Text

pub record ConfigResponse : Type 0 where
  pub message_id : Text
  pub in_reply_to : Text
  pub from : Text
  pub to : Text
  pub ok : Bool
  pub kind : Text
  pub body : Text
  pub nonce : Text
  pub ts : ℕ
  pub encrypted : Bool
  pub sender_pubkey : Text
  pub signature : Text

pub record GatewayRequest : Type 0 where
  pub message_id : Text
  pub tracing_id : Text
  pub from : Text
  pub to : Text
  pub kind : Text
  pub method : Text
  pub url : Text
  pub headers : List (Text × Text)
  pub body : Text
  pub route : List Text
  pub nonce : Text
  pub ts : ℕ
  pub encrypted : Bool
  pub sender_pubkey : Text
  pub signature : Text

pub record GatewayResponse : Type 0 where
  pub message_id : Text
  pub tracing_id : Text
  pub in_reply_to : Text
  pub from : Text
  pub to : Text
  pub kind : Text
  pub ok : Bool
  pub status : ℕ
  pub headers : List (Text × Text)
  pub body : Text
  pub nonce : Text
  pub ts : ℕ
  pub encrypted : Bool
  pub sender_pubkey : Text
  pub signature : Text

pub record WebRequest : Type 0 where
  pub message_id : Text
  pub from : Text
  pub to : Text
  pub kind : Text
  pub method : Text
  pub url : Text
  pub headers : List (Text × Text)
  pub body : Text
  pub route : List Text
  pub nonce : Text
  pub ts : ℕ
  pub encrypted : Bool
  pub sender_pubkey : Text
  pub signature : Text

pub record WebResponse : Type 0 where
  pub message_id : Text
  pub in_reply_to : Text
  pub from : Text
  pub to : Text
  pub kind : Text
  pub ok : Bool
  pub status : ℕ
  pub content_type : Text
  pub headers : List (Text × Text)
  pub body : Text
  pub nonce : Text
  pub ts : ℕ
  pub encrypted : Bool
  pub sender_pubkey : Text
  pub signature : Text
