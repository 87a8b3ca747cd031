-- ===== src/Tests/Authority.antt =====
-- src/authority.rs on one authority.
use ess_p2p_rs.Shared.{◌≡◌, ◌≤◌, ◌<◌, ◌↔◌, false, [], ◌∷◌, Text, bytes}
use ess_p2p_rs.Shared.Order.{text_ord}
use ess_p2p_rs.Authority.{
  AuthorityState, default_state, get_role, evaluate_action, ok, standard, gateway, validator,
  gateway_access,
}
use ess_p2p_rs.Authority.Permissions.{granted, evaluate-granted}
use ess_p2p_rs.Authority.Manager.{AuthorityManager, new, update_state, verify}
use ess_p2p_rs.Authority.Manager.Versions.{
  update_state_iff, update, bundle, confirm, run, run-version,
}
use ess_p2p_rs.Tests.Node.{crypto}

abbrev alice : Text
alice = bytes "alice"

abbrev bob : Text
bob = bytes "bob"

abbrev carol : Text
carol = bytes "carol"

abbrev authority : AuthorityState
authority = record default_state {
  version = 3;
  supernodes = carol ∷ alice ∷ carol ∷ [];
  allowed_peers = (bob, gateway) ∷ [];
  pending_peers = (bytes "dave", tt) ∷ [];
  signature = 7 ∷ bytes "?";
}

abbrev manager : AuthorityManager
manager = new authority

abbrev newer : AuthorityState
newer = record authority { version = 4 }

abbrev relaxed : AuthorityState
relaxed = record authority { allowed_peers = (bob, validator) ∷ (bytes "dave", standard) ∷ [] }

evaluate-granted_example :
    (evaluate_action authority bob gateway_access 5).allowed
    ≡ granted authority.policies (get_role authority bob) gateway_access
evaluate-granted_example = evaluate-granted authority bob gateway_access 5

update_state_iff_example :
    (update_state crypto manager newer 7 ≡ (record manager { state = newer }, ok tt)) ↔ (
      (manager.poisoned ≡ false)
      × (verify crypto newer 7 ≡ ok tt)
      × (manager.state.version < newer.version))
update_state_iff_example = update_state_iff crypto manager newer 7

run-version_example :
    3
    ≤ (run crypto manager (
        update newer 7
        ∷ bundle (bytes "erin" ∷ [])
        ∷ confirm (bytes "dave") (carol ∷ []) 1
        ∷ [])).state.version
run-version_example =
    run-version crypto manager
      (update newer 7 ∷ bundle (bytes "erin" ∷ []) ∷ confirm (bytes "dave") (carol ∷ []) 1 ∷ [])
