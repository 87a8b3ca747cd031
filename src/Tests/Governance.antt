-- ===== src/Tests/Governance.antt =====
-- src/governance/ on one proposal. A quorum is two thirds.
use ess_p2p_rs.Shared.{
  ℕ, ◌*◌, ◌≡◌, refl, Bool, true, false, ◌&&◌, none, some, inr, [], ◌∷◌, List, bytes, leb,
  if◌then◌else◌,
}
use ess_p2p_rs.Shared.Order.{text_ord}
use ess_p2p_rs.Shared.Dict.{insert}
use ess_p2p_rs.Authority.{default_state}
use ess_p2p_rs.Authority.Manager.{AuthorityManager, get}
use ess_p2p_rs.Authority.Manager
use ess_p2p_rs.Governance.{
  activate_peer, GovernanceSnapshot, GovernanceEngine, Proposal, VoteMessage, new, record_vote,
  check_quorum, mark_executed, evaluate_bootstrap, update_supernodes, collect,
}
use ess_p2p_rs.Governance.Quorum.{is_recorded, may_vote, vote_of, record_vote-vote_of}
use ess_p2p_rs.Governance.Bootstrap.{
  Operation, vote, mark, restore, update, run, step, bootstrap_never_returns, decided_once,
}
use ess_p2p_rs.Security.Policy.{PolicyInner}
use ess_p2p_rs.Security.Policy

-- The ratio is a percentage.
abbrev reached : ℕ → ℕ → ℕ → Bool
reached ratio part total = leb (ratio * total) (100 * part)

abbrev proposal : Proposal
proposal = record {
  proposal_id = bytes "p";
  proposal_type = activate_peer (bytes "x");
  target = bytes "x";
  created_at = 100;
  supernode_count = 2;
  votes = (bytes "s1", false) ∷ [];
  executed = false;
}

abbrev engine : GovernanceEngine ℕ
engine = record {
  proposals = (bytes "p", proposal) ∷ [];
  supernodes = (bytes "s1", tt) ∷ (bytes "s2", tt) ∷ [];
  quorum_ratio = 66;
  is_bootstrap_mode = false;
  bootstrap_exited = false;
  hmac_key = [];
  bootstrap_deadline = 3600;
  disk = none;
}

record_vote-vote_of_example :
    (is_recorded (record_vote engine (bytes "p") (bytes "s2") true 200).1
      ≡ may_vote engine (bytes "p") (bytes "s2"))
    × (vote_of (record_vote engine (bytes "p") (bytes "s2") true 200).0 (bytes "p") (bytes "s1") ≡ (
        if may_vote engine (bytes "p") (bytes "s2")
          && (text_ord.beq (bytes "p") (bytes "p") && text_ord.beq (bytes "s2") (bytes "s1"))
        then some true
        else vote_of engine (bytes "p") (bytes "s1")))
record_vote-vote_of_example =
    record_vote-vote_of engine (bytes "p") (bytes "s2") true 200 (bytes "p") (bytes "s1")

-- What the file held after the exit.
abbrev stored_snapshot : GovernanceSnapshot ℕ
stored_snapshot = record {
  proposals = record proposal { executed = true } ∷ [];
  quorum_percent = 60;
  bootstrap_exited = true;
}

abbrev operations : List (Operation ℕ)
operations =
    vote (bytes "p") (bytes "s2") true 200
    ∷ update (bytes "s1" ∷ []) 300
    ∷ restore stored_snapshot
    ∷ mark (bytes "p") 400
    ∷ []

decided_once_example :
    check_quorum reached (run (mark_executed engine (bytes "p") 150) operations) (bytes "p") 600 900
    ≡ none
decided_once_example =
    decided_once reached engine (bytes "p") 150 operations 600 900 ((inr refl, tt), tt)

abbrev founded : GovernanceEngine ℕ
founded = new (bytes "s1" ∷ []) 66 10

abbrev grown : List (Operation ℕ)
grown = update (bytes "s1" ∷ bytes "s2" ∷ []) 20 ∷ []

bootstrap_never_returns_example :
    ((run (run founded grown) operations).bootstrap_exited ≡ true)
    × ((run (run founded grown) operations).is_bootstrap_mode ≡ false)
unfolding run step update_supernodes evaluate_bootstrap new collect insert
bootstrap_never_returns_example =
    bootstrap_never_returns {Ratio = ℕ} (bytes "s1" ∷ []) 66 10 grown operations tt refl (refl, tt)

abbrev manager : AuthorityManager
manager = Manager.new (record default_state { supernodes = bytes "s1" ∷ bytes "s2" ∷ [] })

abbrev policy : PolicyInner ℕ
policy = record (Policy.new (bytes "n")) { peer_public_keys = (bytes "e", 9) ∷ [] }

abbrev ballot : VoteMessage
ballot = record {
  proposal_id = bytes "p";
  voter = bytes "s2";
  approve = true;
  nonce = bytes "n";
  timestamp = 7;
  signature = 9 ∷ bytes "p:s2:true:n:7";
}
