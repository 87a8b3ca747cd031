-- ===== src/Governance.antt =====
-- src/governance/: proposals, votes and the engine that counts them. The clock, the fresh identifier
-- of a proposal and the comparison of a ratio of `f64` numbers with the quorum are arguments.
pub mod Quorum
pub mod Bootstrap
pub mod Receive
use ess_p2p_rs.Shared.{
  ℕ, ◌+◌, ◌-◌, ◌^◌, Bool, true, false, not, ◌&&◌, Option, none, some, List, [], ◌∷◌, Text, ltb, leb,
  ◌==◌, length, is_empty, if◌then◌else◌, suc,
}
use ess_p2p_rs.Shared.Order.{text_ord}
use ess_p2p_rs.Shared.Dict.{Dict, KeySet, lookup, insert, contains, add}

pub data ProposalType : Type 0 where
  activate_peer ban_peer : Text → ProposalType

pub record VoteMessage : Type 0 where
  pub proposal_id : Text
  pub voter : Text
  pub approve : Bool
  pub nonce : Text
  pub timestamp : ℕ
  pub signature : Text

pub record Proposal : Type 0 where
  pub proposal_id : Text
  pub proposal_type : ProposalType
  pub target : Text
  pub created_at : ℕ
  pub supernode_count : ℕ
  pub votes : Dict Text Bool
  pub executed : Bool

pub data VoteOutcome : Type 0 where
  recorded proposal_not_found already_executed not_a_supernode : VoteOutcome

abbrev pub values {ℓ κ} : {K : Type ℓ} {V : Type κ} → Dict K V → List V
values [] = []
values ((k, v) ∷ m) = v ∷ values m

-- How many of the votes approve.
unfoldable pub approvals : List Bool → ℕ
approvals [] = 0
approvals (true ∷ vs) = suc (approvals vs)
approvals (false ∷ vs) = approvals vs

unfoldable pub collect : List Text → KeySet Text
collect [] = []
collect (s ∷ rest) = add s (collect rest)

module _ {ℓ} (Ratio : Type ℓ) where
  pub record GovernanceSnapshot : Type ℓ where
    pub proposals : List Proposal
    pub quorum_percent : Ratio
    pub bootstrap_exited : Bool

  -- `disk` is the last snapshot that was written; every write succeeds.
  pub record GovernanceEngine : Type ℓ where
    pub proposals : Dict Text Proposal
    pub supernodes : KeySet Text
    pub quorum_ratio : Ratio
    pub is_bootstrap_mode : Bool
    pub bootstrap_exited : Bool
    pub hmac_key : List ℕ
    pub bootstrap_deadline : ℕ
    pub disk : Option GovernanceSnapshot

unfoldable pub insert_all : List Proposal → Dict Text Proposal → Dict Text Proposal
insert_all [] m = m
insert_all (p ∷ ps) m = insert_all ps (insert p.proposal_id p m)

module _ {ℓ} {Ratio : Type ℓ} where
  unfoldable pub new : List Text → Ratio → ℕ → GovernanceEngine Ratio
  unfolding collect
  new supernodes quorum_ratio now = record {
    proposals = [];
    supernodes = collect supernodes;
    quorum_ratio = quorum_ratio;
    is_bootstrap_mode = ltb (length (collect supernodes)) 2;
    bootstrap_exited = false;
    hmac_key = [];
    bootstrap_deadline = now + 3600;
    disk = none;
  }

  unfoldable pub snapshot : GovernanceEngine Ratio → GovernanceSnapshot Ratio
  snapshot g = record {
    proposals = values g.proposals;
    quorum_percent = g.quorum_ratio;
    bootstrap_exited = g.bootstrap_exited;
  }

  unfoldable pub evaluate_bootstrap : GovernanceEngine Ratio → ℕ → GovernanceEngine Ratio
  evaluate_bootstrap g now =
      if g.is_bootstrap_mode && ltb g.bootstrap_deadline now
      then record g { is_bootstrap_mode = false; bootstrap_exited = true }
      else g

  unfoldable pub save_if_possible : GovernanceEngine Ratio → GovernanceEngine Ratio
  unfolding snapshot
  save_if_possible g = if is_empty g.hmac_key then g else record g { disk = some (snapshot g) }

  unfoldable pub create_proposal :
      GovernanceEngine Ratio → ProposalType → Text → Text → ℕ → GovernanceEngine Ratio
  unfolding evaluate_bootstrap save_if_possible
  create_proposal g ptype target id now =
      let g' = evaluate_bootstrap g now in
      let alone = g'.is_bootstrap_mode && not g'.bootstrap_exited in
      let proposal : Proposal = record {
        proposal_id = id;
        proposal_type = ptype;
        target = target;
        created_at = now;
        supernode_count = if alone then 1 else length g'.supernodes;
        votes = [];
        executed = alone;
      } in
      save_if_possible (record g' { proposals = insert id proposal g'.proposals })

  unfoldable pub record_vote :
      GovernanceEngine Ratio → Text → Text → Bool → ℕ → GovernanceEngine Ratio × VoteOutcome
  unfolding evaluate_bootstrap save_if_possible
  record_vote g proposal_id voter approve now =
      let g' = evaluate_bootstrap g now in
      elim (lookup proposal_id g'.proposals) [
        | none ↦ (g', proposal_not_found)
        | some prop ↦
            if prop.executed
            then (g', already_executed)
            else if contains voter g'.supernodes
            then (
              save_if_possible (record g' {
                proposals =
                    insert proposal_id (record prop { votes = insert voter approve prop.votes })
                      g'.proposals;
              }),
              recorded,
            )
            else (g', not_a_supernode)
      ]

  unfoldable pub mark_executed : GovernanceEngine Ratio → Text → ℕ → GovernanceEngine Ratio
  unfolding evaluate_bootstrap save_if_possible
  mark_executed g proposal_id now =
      let g' = evaluate_bootstrap g now in
      elim (lookup proposal_id g'.proposals) [
        | none ↦ g'
        | some p ↦ save_if_possible (record g' {
          proposals = insert proposal_id (record p { executed = true }) g'.proposals;
        })
      ]

  abbrev pub get_proposal : GovernanceEngine Ratio → Text → Option Proposal
  get_proposal g proposal_id = lookup proposal_id g.proposals

  unfoldable pub update_supernodes : GovernanceEngine Ratio → List Text → ℕ → GovernanceEngine Ratio
  unfolding evaluate_bootstrap collect
  update_supernodes g new_list now =
      let g' = evaluate_bootstrap g now in
      let old_len = length g'.supernodes in
      let replaced = record g' { supernodes = collect new_list } in
      let count = length replaced.supernodes in
      if leb 2 count && ltb old_len 2
      then record replaced { is_bootstrap_mode = false; bootstrap_exited = true }
      else if ltb count 2 && not g'.bootstrap_exited
      then record replaced { is_bootstrap_mode = true }
      else record replaced { is_bootstrap_mode = false }

  unfoldable pub restore_from_snapshot :
      GovernanceEngine Ratio → GovernanceSnapshot Ratio → GovernanceEngine Ratio
  unfolding insert_all
  restore_from_snapshot g s = record g {
    proposals = insert_all s.proposals g.proposals;
    quorum_ratio = s.quorum_percent;
    bootstrap_exited = s.bootstrap_exited;
  }

  abbrev pub set_hmac_key : GovernanceEngine Ratio → List ℕ → GovernanceEngine Ratio
  set_hmac_key g key = record g { hmac_key = key }

-- `now - created_at` in 64 bits, as a release build wraps it.
abbrev pub elapsed : ℕ → ℕ → ℕ
elapsed now created_at =
    if leb created_at now then now - created_at else (now + 2 ^ 64) - created_at

-- `reached r part total` is `part as f64 / total as f64 >= r`.
module _ {ℓ} {Ratio : Type ℓ} (reached : Ratio → ℕ → ℕ → Bool) where
  unfoldable pub check_quorum : GovernanceEngine Ratio → Text → ℕ → ℕ → Option Bool
  unfolding approvals
  check_quorum g proposal_id timeout_secs now = elim (lookup proposal_id g.proposals) [
    | none ↦ none
    | some prop ↦
        let total = prop.supernode_count in
        let yes = approvals (values prop.votes) in
        let no = length prop.votes - yes in
        if prop.executed
        then none
        else if total == 0
        then some false
        else if reached g.quorum_ratio yes total
        then some true
        else if reached g.quorum_ratio no total
        then some false
        else if total == 2
            && (length prop.votes == 1 && ltb timeout_secs (elapsed now prop.created_at))
        then some true
        else none
  ]
