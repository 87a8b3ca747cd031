-- ===== src/Authority/Manager/Versions.antt =====
-- src/authority.rs: which authority a manager accepts, and what a poisoned lock answers.
use ess_p2p_rs.Shared.{
  ℕ, ◌≤◌, ◌<◌, ◌≡◌, ◌≢◌, ◌↔◌, refl, true, false, none, List, [], ◌∷◌, Text, arith,
}
use ess_p2p_rs.Authority.{Result, ok, err, AuthorityState, Action}
use ess_p2p_rs.Authority.Manager.{
  Crypto, verify, AuthorityManager, get, is_allowed, role_of, can_route, can_gateway,
  trust_path_exists, decision_for_gateway_peer, update_state, refresh_from_file, outcome_of,
  apply_config_bundle, confirm_pending_peers, stage_peers, stage_peer, promote, canonicalize,
}

-- Behind a poisoned lock nobody has a role or a permission.
pub poisoned_denies :
    (m : AuthorityManager) (peer : Text) (action : Action) (now : ℕ)
    → m.poisoned ≡ true
    → (is_allowed m peer action now ≡ false)
      × (role_of m peer ≡ none)
      × (can_route m peer now ≡ false)
      × (can_gateway m peer now ≡ false)
      × (trust_path_exists m peer ≡ false)
      × ((decision_for_gateway_peer m peer now).allowed ≡ false)
unfolding is_allowed role_of can_route can_gateway trust_path_exists decision_for_gateway_peer
poisoned_denies m peer action now h = ground arith

stage_peers-version :
    (s : AuthorityState) (peers : List Text) → (stage_peers s peers).version ≡ s.version
unfolding stage_peers
stage_peers-version s [] = refl
stage_peers-version s (p ∷ ps) = ground (arith, stage_peers-version (stage_peer s p) ps)

module _ {ℓ} {Key : Type ℓ} (crypto : Crypto Key) where
  -- A new authority is accepted, and is then the state, exactly when the lock is sound, its
  -- signature verifies and its version is higher than the present one.
  pub update_state_iff :
      (m : AuthorityManager) (new_state : AuthorityState) (pubkey : Key)
      → (update_state crypto m new_state pubkey ≡ (record m { state = new_state }, ok tt)) ↔ (
          (m.poisoned ≡ false)
          × (verify crypto new_state pubkey ≡ ok tt)
          × (m.state.version < new_state.version))
  unfolding update_state
  update_state_iff m new_state pubkey = (λ h. ground arith, λ h. ground arith)

  -- A new authority that is refused leaves the state.
  pub update_state_refused :
      (m : AuthorityManager) (new_state : AuthorityState) (pubkey : Key)
      → (update_state crypto m new_state pubkey).1 ≢ ok tt
      → (update_state crypto m new_state pubkey).0 ≡ m
  unfolding update_state
  update_state_refused m new_state pubkey h = ground arith

  update_state-version :
      (m : AuthorityManager) (new_state : AuthorityState) (pubkey : Key)
      → m.state.version ≤ (update_state crypto m new_state pubkey).0.state.version
  unfolding update_state
  update_state-version m new_state pubkey = ground arith

  outcome_of-fst : (v w : ℕ) (r : AuthorityManager × Result (Unit {0})) → (outcome_of v w r).0 ≡ r.0
  outcome_of-fst v w (m, ok u) = refl
  outcome_of-fst v w (m, err e) = refl

  promote-version : (s : AuthorityState) (p : Text) → (promote crypto s p).version ≡ s.version
  unfolding promote canonicalize
  promote-version s p = refl

  -- What can happen to a manager.
  pub data Call : Type ℓ where
    update : AuthorityState → Key → Call
    refresh : Result AuthorityState → Key → Call
    bundle : List Text → Call
    confirm : Text → List Text → ℕ → Call

  pub step : AuthorityManager → Call → AuthorityManager
  step m (update new_state pubkey) = (update_state crypto m new_state pubkey).0
  step m (refresh loaded pubkey) = (refresh_from_file crypto m loaded pubkey).0
  step m (bundle peers) = (apply_config_bundle m peers).0
  step m (confirm peer supernodes required) =
      (confirm_pending_peers crypto m peer supernodes required).0

  pub run : AuthorityManager → List Call → AuthorityManager
  run m [] = m
  run m (c ∷ cs) = run (step m c) cs

  step-version : (m : AuthorityManager) (c : Call) → m.state.version ≤ (step m c).state.version
  unfolding step refresh_from_file apply_config_bundle confirm_pending_peers
  step-version m (update new_state pubkey) = update_state-version m new_state pubkey
  step-version m (refresh (err e) pubkey) = omega arith
  step-version m (refresh (ok new_state) pubkey) = ground (
    arith,
    outcome_of-fst (get m).version new_state.version (update_state crypto m new_state pubkey),
    update_state-version m new_state pubkey,
  )
  step-version m (bundle peers) = ground (arith, stage_peers-version m.state peers)
  step-version m (confirm peer supernodes required) = ground (arith, promote-version m.state peer)

  -- No history of updates, file refreshes, bundles and confirmations lowers the version of the
  -- authority.
  pub run-version :
      (m : AuthorityManager) (cs : List Call) → m.state.version ≤ (run m cs).state.version
  unfolding run
  run-version m [] = omega arith
  run-version m (c ∷ cs) = omega (arith, step-version m c, run-version (step m c) cs)
