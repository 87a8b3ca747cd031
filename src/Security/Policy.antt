-- ===== src/Security/Policy.antt =====
-- src/security_runtime.rs: `PolicyInner` and what it verifies. Base64, Ed25519, serde and the UTF-8
-- decoder are arguments; `checked` and `now` are the clock's two readings in `check_common`.
pub mod Messages
pub mod Access
pub mod Laws
use ess_p2p_rs.Shared.{
  ℕ, Bool, true, false, not, ◌||◌, ◌⊎◌, inl, inr, Option, none, some, List, [], ◌∷◌, ◌++◌, Text,
  bytes, if◌then◌else◌, unwrap_or,
}
use ess_p2p_rs.Shared.Order.{text_ord}
use ess_p2p_rs.Shared.Dict.{Dict, KeySet, lookup, insert}
use ess_p2p_rs.Authority.{Action, NodeRole, standard}
use ess_p2p_rs.Authority.Manager.{AuthorityManager, is_allowed, role_of}
use ess_p2p_rs.Security.{
  Result, ok, err, and_then, SecurityError, unknown_peer_key, decode_error, ConfigBundle,
}
use ess_p2p_rs.Security.Replay.{Seen, check_common, verify_nonce_uniqueness, verify_timestamp}

pub record PolicyConfig : Type 0 where
  pub allowed_peers : KeySet Text
  pub allowed_actions : KeySet Text
  pub bootstrap_addrs : List Text
  pub trusted_bundle_hash : Option Text
  pub response_verification_enabled : Bool

abbrev pub default_config : PolicyConfig
default_config = record {
  allowed_peers = [];
  allowed_actions = [];
  bootstrap_addrs = [];
  trusted_bundle_hash = none;
  response_verification_enabled = true;
}

pub record VerifiedGatewayResponse : Type 0 where
  pub status : ℕ
  pub body : Text

pub record VerifiedWebResponse : Type 0 where
  pub status : ℕ
  pub content_type : Text
  pub body : Text

-- A decoder gives its error's text, or what it read.
pub record Wire {ℓ} (Key : Type ℓ) : Type ℓ where
  pub decode : Text → Text ⊎ List ℕ
  pub accepts : Key → List ℕ → List ℕ → Bool
  pub same_key : Key → Key → Bool
  pub parse_bundle : Text → Text ⊎ ConfigBundle
  pub from_utf8_lossy : List ℕ → Text
  pub ne_bytes : ℕ → ℕ → List ℕ

pub record PolicyInner {ℓ} (Key : Type ℓ) : Type ℓ where
  pub local_peer_id : Text
  pub replay_window_secs : ℕ
  pub replay_seen : Seen
  pub peer_public_keys : Dict Text Key
  pub authority : Option AuthorityManager
  pub policy_config : PolicyConfig
  pub response_verifiers : List (VerifiedGatewayResponse → Result (Unit {0}))

unfoldable pub decoded {κ} : {A : Type κ} → Text ⊎ A → Result A
decoded (inl e) = err (decode_error e)
decoded (inr a) = ok a

module _ {ℓ} {Key : Type ℓ} where
  abbrev pub new : Text → PolicyInner Key
  new local_peer_id = record {
    local_peer_id = local_peer_id;
    replay_window_secs = 300;
    replay_seen = [];
    peer_public_keys = [];
    authority = none;
    policy_config = default_config;
    response_verifiers = [];
  }

  abbrev pub attach_authority : PolicyInner Key → AuthorityManager → PolicyInner Key
  attach_authority p authority = record p { authority = some authority }

  unfoldable pub local_role : PolicyInner Key → NodeRole
  local_role p = elim p.authority [
    | none ↦ standard
    | some m ↦ unwrap_or (role_of m p.local_peer_id) standard
  ]

  unfoldable pub policy_is_allowed : PolicyInner Key → Text → Action → ℕ → Bool
  policy_is_allowed p peer action now = elim p.authority [
    | none ↦ false
    | some m ↦ is_allowed m peer action now
  ]

  abbrev pub register_peer_public_key : PolicyInner Key → Text → Key → PolicyInner Key
  register_peer_public_key p peer_id public_key = record p {
    peer_public_keys = insert peer_id public_key p.peer_public_keys;
  }

  -- `check_common` on the policy's own cache and window.
  unfoldable pub screen :
      PolicyInner Key → Text → ℕ → Text → ℕ → ℕ → PolicyInner Key × Result (Unit {0})
  screen p remote ts nonce checked now =
      let (seen, outcome) =
        check_common p.replay_window_secs p.replay_seen remote ts nonce checked now in
      (record p { replay_seen = seen }, outcome)

  -- `self.check_common(…)?` and then the rest, which reads the keys.
  unfoldable pub screened {κ} :
      {A : Type κ}
      → PolicyInner Key
      → Text
      → ℕ
      → Text
      → ℕ
      → ℕ
      → (PolicyInner Key → Result A)
      → PolicyInner Key × Result A
  unfolding screen
  screened p remote ts nonce checked now rest =
      let (q, outcome) = screen p remote ts nonce checked now in (q, and_then outcome (λ _. rest q))

  unfoldable pub key_of : PolicyInner Key → Text → Result Key
  key_of p peer = elim (lookup peer p.peer_public_keys) [
    | none ↦ err unknown_peer_key
    | some key ↦ ok key
  ]

  abbrev pub verify_nonce : PolicyInner Key → Text → Text → ℕ → PolicyInner Key × Result (Unit {0})
  verify_nonce p peer nonce now =
      let (seen, outcome) =
        verify_nonce_uniqueness p.replay_window_secs p.replay_seen peer nonce now in
      (record p { replay_seen = seen }, outcome)
