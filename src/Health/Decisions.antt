-- ===== src/Health/Decisions.antt =====
-- src/ghost_policy.rs on what src/ghost_health.rs assesses.
use ess_p2p_rs.Shared.{
  ℕ, ◌+◌, ◌≡◌, ◌≢◌, ◌≤◌, ◌↔◌, refl, sym, ap, ◌∙◌, Bool, true, false, ◌&&◌, inl, inr, ◌⊎◌, Text,
  bytes, ltb, leb, arith, if◌then◌else◌, Bool-cases,
}
use ess_p2p_rs.Shared.Order.{text_ord, text_eq, text_eq_iff}
use ess_p2p_rs.Ghost.{GhostState}
use ess_p2p_rs.Health.{
  GhostHealthSnapshot, GhostHealthLevel, healthy, degraded, critical, GhostHealthRecommendation,
  stay_awake, to_wake, to_beacon, to_sleep, to_panic, role_norm, is_supernode, is_relay,
  is_operational, looks_like_disconnect_reason, health_score, level_of, recommend, assess,
}
use ess_p2p_rs.Health.Policy.{
  Floats, GhostPolicy, default_policy, GhostDecision, go_to_sleep, do_panic, on_level,
  when_degraded, decide_health,
}

module _ (trim : Text → Text) where
  supernode_no_relay : (s : GhostHealthSnapshot) → (is_supernode trim s && is_relay trim s) ≡ false
  unfolding is_supernode is_relay role_norm
  supernode_no_relay s = elim (Bool-cases (text_eq (role_norm trim s) (bytes "supernode"))) [
    | inl super ↦ let e = (text_eq_iff (role_norm trim s) (bytes "supernode")).0 super in rw e refl
    | inr other ↦ rw other refl
  ]

  -- A node that is healthy has peers.
  pub healthy_connected :
      (s : GhostHealthSnapshot) → 85 ≤ health_score trim s → leb 2 s.connected_peers ≡ true
  unfolding health_score
  healthy_connected s h = ground (arith, h, supernode_no_relay s)

  pub healthy_high : (score : ℕ) → level_of score ≡ healthy → 85 ≤ score
  healthy_high score e = ground (arith, e)

  abbrev pub count_true : Bool → ℕ
  count_true b = if b then 1 else 0

  -- What speaks for a node that does not operate.
  abbrev pub merits : GhostHealthSnapshot → ℕ
  merits s =
      count_true (is_supernode trim s && s.gateway_ok)
      + (count_true (is_relay trim s && s.bootstrap_ok) + count_true (leb 2 s.connected_peers))

  -- A node that was tampered with, or that does not operate and has no more merits than a disconnection.
  abbrev pub IsDoomed : GhostHealthSnapshot → Type 0
  IsDoomed s =
      (s.tamper_detected ≡ true)
      ⊎ ((is_operational trim s ≡ false)
          × (merits s ≤ count_true (looks_like_disconnect_reason trim s)))

  doomed_scores : (s : GhostHealthSnapshot) → IsDoomed s → ltb (health_score trim s) 45 ≡ true
  unfolding health_score
  doomed_scores s (inl tampered) = ground (arith, tampered)
  doomed_scores s (inr (idle, few)) = ground (arith, idle, few)

  health_score-IsDoomed :
      (s : GhostHealthSnapshot) → ltb (health_score trim s) 45 ≡ true → IsDoomed s
  unfolding health_score
  health_score-IsDoomed s h = elim (Bool-cases s.tamper_detected) [
    | inl tampered ↦ inl tampered
    | inr sound ↦
        let idle : is_operational trim s ≡ false = ground (arith, h, sound) in
        inr (idle, ground (arith, h, sound, idle))
  ]

module _ (trim : Text → Text) (floats : Floats) where
  abbrev pub is_panic : GhostDecision floats → Bool
  is_panic do_panic = true
  is_panic d = false

  middle_no_panic : (r : GhostHealthRecommendation) → when_degraded floats r ≢ do_panic
  middle_no_panic stay_awake e = ground (arith, ap is_panic e)
  middle_no_panic to_wake e = ground (arith, ap is_panic e)
  middle_no_panic to_beacon e = ground (arith, ap is_panic e)
  middle_no_panic to_sleep e = ground (arith, ap is_panic e)
  middle_no_panic to_panic e = ground (arith, ap is_panic e)

  high_no_panic :
      (state : GhostState) (r : GhostHealthRecommendation)
      → on_level floats (default_policy floats) state r healthy ≢ do_panic
  high_no_panic state r e = ground (arith, ap is_panic e)

  panic_critical :
      (s : GhostHealthSnapshot) (state : GhostState) (score : ℕ) (r : GhostHealthRecommendation)
      → (on_level floats (default_policy floats) state r (level_of score) ≡ do_panic)
        ↔ (ltb score 45 ≡ true)
  panic_critical s state score r = elim (Bool-cases (leb 85 score)) [
    | inl high ↦
        (λ e. absurd (high_no_panic state r (rw high at e)), λ low. ground (arith, low, high))
    | inr below ↦ elim (Bool-cases (leb 45 score)) [
      | inl middle ↦ (
        λ e. absurd (middle_no_panic r (rw (below, middle) at e)),
        λ low. ground (arith, low, middle),
      )
      | inr low ↦ (λ e. ground (arith, low), λ e. rw (below, low) refl)
    ]
  ]

  -- The default policy tells an assessed node to panic exactly if the node was tampered with, or
  -- does not operate and has no more merits (a supernode with a gateway, a relay with a bootstrap,
  -- two peers) than 1 if its last failure was a disconnection, else 0.
  pub decide_health-IsDoomed :
      (s : GhostHealthSnapshot) (state : GhostState)
      → (decide_health floats (default_policy floats) state (assess trim s state) ≡ do_panic)
        ↔ IsDoomed trim s
  unfolding decide_health assess
  decide_health-IsDoomed s state =
      let r = recommend s.connected_peers state (level_of (health_score trim s)) in
      let same = panic_critical s state (health_score trim s) r in
      (λ e. health_score-IsDoomed trim s (same.0 e), λ d. same.1 (doomed_scores trim s d))

  connected_awake :
      (peers : ℕ) (state : GhostState)
      → leb 2 peers ≡ true
      → recommend peers state healthy ≡ stay_awake
  connected_awake peers state connected = ground (arith, connected)

  abbrev pub is_sleep : GhostDecision floats → Bool
  is_sleep go_to_sleep = true
  is_sleep d = false

  -- Only a healthy node that is told to sleep does so.
  pub on_level_sleep :
      (policy : GhostPolicy floats) (peers : ℕ) (state : GhostState) (level : GhostHealthLevel)
      → (level ≡ healthy → leb 2 peers ≡ true)
      → is_sleep (on_level floats policy state (recommend peers state level) level) ≡ false
  on_level_sleep policy peers state critical well = ground (arith)
  on_level_sleep policy peers state degraded well = refl
  on_level_sleep policy peers state healthy well =
      rw (connected_awake peers state (well refl)) (ground arith)

  -- Whatever the policy, the node and its state, the decision on the node's assessment is not to
  -- sleep.
  pub never_sleeps :
      (policy : GhostPolicy floats) (s : GhostHealthSnapshot) (state : GhostState)
      → decide_health floats policy state (assess trim s state) ≢ go_to_sleep
  unfolding decide_health assess
  never_sleeps policy s state e =
      let score = health_score trim s in
      let never =
        on_level_sleep policy s.connected_peers state (level_of score)
          (λ well. healthy_connected trim s (healthy_high trim score well)) in
      ground (arith, sym (ap is_sleep e) ∙ never)
