-- ===== src/Authority/Manager.antt =====
-- src/authority.rs: hashing, signatures, and `AuthorityManager`, whose lock is poisoned once a holder
-- has panicked. What `load_authority` read is an argument.
pub mod Versions
pub mod Staging
pub mod Signing
use ess_p2p_rs.Shared.{
  ℕ, zero, suc, ◌/◌, ◌%◌, ◌≡◌, refl, Bool, true, false, ◌&&◌, ◌||◌, not, Option, none, some, List,
  [], ◌∷◌, ◌++◌, Text, bytes, ltb, leb, is_some, is_empty, length, if◌then◌else◌,
}
use ess_p2p_rs.Shared.Order.{text_ord}
use ess_p2p_rs.Shared.Dict
use ess_p2p_rs.Shared.Dict.{Dict, KeySet, insert, remove, add, contains_key}
use ess_p2p_rs.Shared.Sort.{sort, dedup}
use ess_p2p_rs.Authority.{
  AuthorityError, Result, ok, err, Action, NodeRole, AuthorityState, AuthorityDecision,
  default_state, get_role, evaluate_action, lock_poisoned, invalid_signature, version_rejected,
  client, route, gateway_access,
}

-- `ed25519_dalek` and `sha2`: a digest, the signatures that parse, and those that a key accepts.
pub record Crypto {ℓ} (Key : Type ℓ) : Type ℓ where
  pub sha256 : List ℕ → List ℕ
  pub parses : List ℕ → Bool
  pub accepts : Key → List ℕ → List ℕ → Bool

-- `to_le_bytes`
unfoldable pub le_bytes : ℕ → ℕ → List ℕ
le_bytes zero v = []
le_bytes (suc n) v = (v % 256) ∷ le_bytes n (v / 256)

unfoldable pub concat : List Text → Text
concat [] = []
concat (t ∷ ts) = t ++ concat ts

-- What `compute_hash` feeds to SHA-256.
unfoldable pub hash_material : AuthorityState → List ℕ
unfolding le_bytes concat
hash_material s = le_bytes 8 s.version ++ (s.root.issuer ++ concat (sort s.supernodes))

module _ {ℓ} {Key : Type ℓ} (crypto : Crypto Key) where
  unfoldable pub compute_hash : AuthorityState → List ℕ
  compute_hash s = crypto.sha256 (hash_material s)

  unfoldable pub canonicalize : AuthorityState → AuthorityState
  canonicalize s =
      let s' = record s { supernodes = dedup (sort s.supernodes) } in
      record s' { hash = compute_hash s' }

  unfoldable pub verify : AuthorityState → Key → Result (Unit {0})
  verify s pubkey =
      if is_empty s.signature
      then err invalid_signature
      else if crypto.parses s.signature
      then (if crypto.accepts pubkey (compute_hash s) s.signature
          then ok tt
          else err invalid_signature)
      else err invalid_signature

  pub default_authority : AuthorityState
  unfolding canonicalize
  default_authority = canonicalize default_state

-- The state behind its lock.
pub record AuthorityManager : Type 0 where
  pub state : AuthorityState
  pub poisoned : Bool

abbrev pub new : AuthorityState → AuthorityManager
new initial = record { state = initial; poisoned = false }

unfoldable pub get : AuthorityManager → AuthorityState
get m = if m.poisoned then default_state else m.state

unfoldable pub get_snapshot : AuthorityManager → Result AuthorityState
get_snapshot m = if m.poisoned then err lock_poisoned else ok m.state

unfoldable pub is_allowed : AuthorityManager → Text → Action → ℕ → Bool
is_allowed m peer action now =
    if m.poisoned then false else (evaluate_action m.state peer action now).allowed

unfoldable pub role_of : AuthorityManager → Text → Option NodeRole
role_of m peer = if m.poisoned then none else get_role m.state peer

unfoldable pub can_route : AuthorityManager → Text → ℕ → Bool
unfolding is_allowed
can_route m peer now = is_allowed m peer route now

unfoldable pub can_gateway : AuthorityManager → Text → ℕ → Bool
unfolding is_allowed
can_gateway m peer now = is_allowed m peer gateway_access now

unfoldable pub trust_path_exists : AuthorityManager → Text → Bool
unfolding role_of
trust_path_exists m peer = is_some (role_of m peer)

unfoldable pub decision_for_gateway_peer : AuthorityManager → Text → ℕ → AuthorityDecision
decision_for_gateway_peer m peer now =
    if m.poisoned
    then record {
      peer_id = peer;
      action = gateway_access;
      allowed = false;
      reason = bytes "internal_lock_error";
      role = none;
      timestamp = now;
    }
    else evaluate_action m.state peer gateway_access now

pub data AuthorityRefreshOutcome : Type 0 where
  success : AuthorityRefreshOutcome
  updated : ℕ → ℕ → AuthorityRefreshOutcome
  unchanged : AuthorityRefreshOutcome
  failed : AuthorityError → AuthorityRefreshOutcome

-- The write under the lock, once the signature is checked.
unfoldable pub replace_newer :
    AuthorityManager → AuthorityState → AuthorityManager × Result (Unit {0})
replace_newer m new_state =
    if m.poisoned
    then (m, err lock_poisoned)
    else if leb new_state.version m.state.version
    then (m, err (version_rejected m.state.version new_state.version))
    else (record m { state = new_state }, ok tt)

-- The outcome that `refresh_from_file` makes of `update_state`.
abbrev pub outcome_of :
    ℕ → ℕ → AuthorityManager × Result (Unit {0}) → AuthorityManager × AuthorityRefreshOutcome
outcome_of old_version new_version (m, ok _) = (m, updated old_version new_version)
outcome_of old_version new_version (m, err e) = (m, failed e)

-- The body of the loop of `apply_config_bundle`.
unfoldable pub stage_peer : AuthorityState → Text → AuthorityState
stage_peer s peer_id =
    if not (contains_key peer_id s.allowed_peers) && not (Dict.contains peer_id s.pending_peers)
    then record s { pending_peers = add peer_id s.pending_peers }
    else s

unfoldable pub stage_peers : AuthorityState → List Text → AuthorityState
unfolding stage_peer
stage_peers s [] = s
stage_peers s (peer_id ∷ rest) = stage_peers (stage_peer s peer_id) rest

unfoldable pub apply_config_bundle :
    AuthorityManager → List Text → AuthorityManager × Result (Unit {0})
unfolding stage_peers
apply_config_bundle m allowed_peers =
    if m.poisoned
    then (m, err lock_poisoned)
    else (record m { state = stage_peers m.state allowed_peers }, ok tt)

module _ {ℓ} {Key : Type ℓ} (crypto : Crypto Key) where
  unfoldable pub update_state :
      AuthorityManager → AuthorityState → Key → AuthorityManager × Result (Unit {0})
  unfolding replace_newer
  update_state m new_state pubkey = elim (verify crypto new_state pubkey) [
    | ok _ ↦ replace_newer m new_state
    | err e ↦ (m, err e)
  ]

  unfoldable pub refresh_from_file :
      AuthorityManager → Result AuthorityState → Key → AuthorityManager × AuthorityRefreshOutcome
  unfolding update_state get
  refresh_from_file m (err e) pubkey = (m, failed e)
  refresh_from_file m (ok new_state) pubkey =
      if leb new_state.version (get m).version
      then (m, unchanged)
      else outcome_of (get m).version new_state.version (update_state m new_state pubkey)

  -- The promotion of a pending peer, under the lock.
  unfoldable pub promote : AuthorityState → Text → AuthorityState
  promote s peer_id = canonicalize crypto (record s {
    pending_peers = remove peer_id s.pending_peers;
    allowed_peers = insert peer_id client s.allowed_peers;
  })

  unfoldable pub confirm_pending_peers :
      AuthorityManager → Text → List Text → ℕ → AuthorityManager × Result Bool
  confirm_pending_peers m peer_id confirming_supernodes required_confirmations =
      if ltb (length confirming_supernodes) required_confirmations
      then (m, ok false)
      else if m.poisoned
      then (m, err lock_poisoned)
      else if Dict.contains peer_id m.state.pending_peers
      then (record m { state = promote m.state peer_id }, ok true)
      else (m, ok false)
