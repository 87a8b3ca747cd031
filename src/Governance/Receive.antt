-- ===== src/Governance/Receive.antt =====
-- src/network/runtime/events.rs: the vote that a peer sends. What was read of the authority is an
-- argument; the message of approval that goes out is the target that it names.
use ess_p2p_rs.Shared.{
  ℕ, ◌≡◌, Bool, true, false, not, ◌&&◌, Option, none, some, inl, inr, List, [], Text, arith,
  if◌then◌else◌, is_empty, Option-cases,
}
use ess_p2p_rs.Shared.Order.{text_ord, beq_refl}
use ess_p2p_rs.Shared.Dict.{lookup, lookup-insert}
use ess_p2p_rs.Shared.Sort.{has}
use ess_p2p_rs.Authority.Manager.{AuthorityManager, get}
use ess_p2p_rs.Governance.{
  GovernanceEngine, Proposal, VoteMessage, record_vote, check_quorum, mark_executed, get_proposal,
  evaluate_bootstrap, save_if_possible,
}
use ess_p2p_rs.Governance.Quorum.{is_recorded, may_vote, vote_of, record_vote-vote_of}
use ess_p2p_rs.Security.Policy.{Wire, PolicyInner, key_of}
use ess_p2p_rs.Security.Policy.Access.{verify_governance_vote, vote_payload}
use ess_p2p_rs.Security.Replay.Window.{is_ok}

abbrev pub target_of : Option Proposal → Text
target_of none = []
target_of (some p) = p.target

module _ {ℓ κ} {Key : Type ℓ} {Ratio : Type κ} (wire : Wire Key)
    (reached : Ratio → ℕ → ℕ → Bool) where
  -- What follows a recorded vote: the engine, and the peer that is activated.
  unfoldable pub decide_on :
      GovernanceEngine Ratio → Text → ℕ → GovernanceEngine Ratio × Option Text
  decide_on gov proposal_id now = elim (check_quorum reached gov proposal_id 600 now) [
    | none ↦ (gov, none)
    | some approved ↦
        let marked = mark_executed gov proposal_id now in
        let target = target_of (get_proposal marked proposal_id) in
        (marked, if approved && not (is_empty target) then some target else none)
  ]

  unfoldable pub receive_vote :
      PolicyInner Key
      → Option AuthorityManager
      → GovernanceEngine Ratio
      → VoteMessage
      → Text
      → ℕ
      → GovernanceEngine Ratio × Option Text
  unfolding decide_on
  receive_vote p authority gov vote peer now =
      let is_supernode : Bool = (elim authority [
        | none ↦ false
        | some m ↦ has vote.voter (get m).supernodes
      ]) in
      let (counted, outcome) = record_vote gov vote.proposal_id vote.voter vote.approve now in
      if is_ok (verify_governance_vote wire p vote peer) && is_supernode
      then (if is_recorded outcome then decide_on counted vote.proposal_id now else (counted, none))
      else (gov, none)

  mark_executed-vote_of :
      (g : GovernanceEngine Ratio) (id q voter : Text) (now : ℕ)
      → vote_of (mark_executed g id now) q voter ≡ vote_of g q voter
  unfolding mark_executed vote_of evaluate_bootstrap save_if_possible
  mark_executed-vote_of g id q voter now = elim (Option-cases (lookup id g.proposals)) [
    | inl absent ↦ ground (arith, absent)
    | inr (p, found) ↦ ground (
      arith,
      found,
      text_ord.beq_iff id q,
      lookup-insert id q (record p { executed = true }) g.proposals,
    )
  ]

  -- A vote that names a supernode which may vote on its proposal is recorded as the vote of this
  -- supernode, whichever peer sent it, if a key is registered for the peer that accepts the vote's
  -- signature.
  pub vote_in_any_name :
      (p : PolicyInner Key) (m : AuthorityManager) (gov : GovernanceEngine Ratio)
      (vote : VoteMessage) (peer : Text) (now : ℕ) (key : Key) (sig : List ℕ)
      → lookup peer p.peer_public_keys ≡ some key
      → wire.decode vote.signature ≡ inr sig
      → wire.accepts key (vote_payload vote) sig ≡ true
      → has vote.voter (get m).supernodes ≡ true
      → may_vote gov vote.proposal_id vote.voter ≡ true
      → vote_of (receive_vote p (some m) gov vote peer now).0 vote.proposal_id vote.voter
        ≡ some vote.approve
  unfolding receive_vote decide_on verify_governance_vote key_of
  vote_in_any_name p m gov vote peer now key sig registered readable accepted supernode may =
      let counted = (record_vote gov vote.proposal_id vote.voter vote.approve now).0 in
      ground (
        arith,
        registered,
        readable,
        accepted,
        supernode,
        may,
        beq_refl vote.proposal_id,
        beq_refl vote.voter,
        record_vote-vote_of gov vote.proposal_id vote.voter vote.approve now vote.proposal_id
            vote.voter,
        mark_executed-vote_of counted vote.proposal_id vote.proposal_id vote.voter now,
      )
