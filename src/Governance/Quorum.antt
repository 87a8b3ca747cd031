-- ===== src/Governance/Quorum.antt =====
-- src/governance/engine.rs: who may vote, what a vote changes, and when a quorum is reached.
use ess_p2p_rs.Shared.{
  ℕ, ◌≡◌, Bool, true, false, not, ◌&&◌, inl, inr, Option, none, some, [], ◌∷◌, Text, arith,
  if◌then◌else◌, ltb, Option-cases,
}
use ess_p2p_rs.Shared.Order.{text_ord}
use ess_p2p_rs.Shared.Dict.{lookup, insert, contains, lookup-insert}
use ess_p2p_rs.Governance.{
  GovernanceEngine, Proposal, VoteOutcome, recorded, approvals, elapsed, evaluate_bootstrap,
  save_if_possible, record_vote, check_quorum,
}

abbrev pub is_recorded : VoteOutcome → Bool
is_recorded recorded = true
is_recorded _ = false

module _ {ℓ} {Ratio : Type ℓ} where
  -- The proposal is open, and the voter is a supernode.
  unfoldable pub may_vote : GovernanceEngine Ratio → Text → Text → Bool
  may_vote g id voter = elim (lookup id g.proposals) [
    | none ↦ false
    | some p ↦ not p.executed && contains voter g.supernodes
  ]

  unfoldable pub vote_of : GovernanceEngine Ratio → Text → Text → Option Bool
  vote_of g id voter = elim (lookup id g.proposals) [ none ↦ none | some p ↦ lookup voter p.votes ]

  -- A vote is recorded exactly if its proposal is there and not executed and the voter is a
  -- supernode; it is then the voter's vote on this proposal, and in any case no other vote changes.
  pub record_vote-vote_of :
      (g : GovernanceEngine Ratio) (id voter : Text) (approve : Bool) (now : ℕ) (q w : Text)
      → (is_recorded (record_vote g id voter approve now).1 ≡ may_vote g id voter)
        × (vote_of (record_vote g id voter approve now).0 q w ≡ (
            if may_vote g id voter && (text_ord.beq id q && text_ord.beq voter w)
            then some approve
            else vote_of g q w))
  unfolding record_vote may_vote vote_of evaluate_bootstrap save_if_possible
  record_vote-vote_of g id voter approve now q w = elim (Option-cases (lookup id g.proposals)) [
    | inl absent ↦ ground (arith, absent)
    | inr (p, found) ↦ ground (
      arith,
      found,
      text_ord.beq_iff id q,
      text_ord.beq_iff voter w,
      lookup-insert voter w approve p.votes,
      lookup-insert id q (record p { votes = insert voter approve p.votes }) g.proposals,
    )
  ]

module _ {ℓ} {Ratio : Type ℓ} (reached : Ratio → ℕ → ℕ → Bool) where
  -- An open proposal with two supernodes whose only vote is against it is approved once the timeout
  -- has passed, if neither none nor one of two is a quorum.
  pub lone_no_approves :
      (g : GovernanceEngine Ratio) (id voter : Text) (p : Proposal) (timeout_secs now : ℕ)
      → lookup id g.proposals ≡ some p
      → p.executed ≡ false
      → p.supernode_count ≡ 2
      → p.votes ≡ (voter, false) ∷ []
      → reached g.quorum_ratio 0 2 ≡ false
      → reached g.quorum_ratio 1 2 ≡ false
      → ltb timeout_secs (elapsed now p.created_at) ≡ true
      → check_quorum reached g id timeout_secs now ≡ some true
  unfolding check_quorum approvals
  lone_no_approves g id voter p timeout_secs now found is_open two lone no_of_two one_of_two late =
      grind (arith, found, is_open, two, lone, no_of_two, one_of_two, late)
