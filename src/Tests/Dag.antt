-- ===== src/Tests/Dag.antt =====
-- src/merkle_dag.rs on short trails.
use ess_p2p_rs.Shared.{ℕ, ◌≡◌, ◌≤◌, refl, ◌++◌, true, none, some, [], ◌∷◌, List, Text, bytes, arith}
use ess_p2p_rs.Shared.Order.{text_ord}
use ess_p2p_rs.Dag.{
  max_dag_nodes, MerkleNode, MerkleDag, add_state_json, verify_nodes, verify_chain, len, last_hash,
}
use ess_p2p_rs.Dag.Chain.{verify_chain-add, forged_last}
use ess_p2p_rs.Dag.History.{Told, tell_all, whole_trail, newest, tell_all-newest}

abbrev digest : Text → Text
digest t = b'h' ∷ t

abbrev node : ℕ → Text → List Text → MerkleNode
node i hash [] = record {
  index = i;
  state_hash = hash;
  parent_hash = none;
  timestamp = 5;
  metadata = [];
}
node i hash (p ∷ ps) = record {
  index = i;
  state_hash = hash;
  parent_hash = some p;
  timestamp = 6;
  metadata = [];
}

abbrev first : MerkleNode
first = node 0 (bytes "h1") []

abbrev second : MerkleNode
second = node 1 (bytes "h2") (bytes "h1" ∷ [])

abbrev forged : MerkleNode
forged = node 1 (bytes "h9") (bytes "h1" ∷ [])

abbrev trail : MerkleDag
trail = record { nodes = first ∷ second ∷ []; next_index = 2 }

trail_whole : verify_chain trail ≡ true
unfolding verify_chain
trail_whole = refl

verify_chain-add_example :
    (verify_chain (add_state_json digest trail (bytes "3") 7) ≡ true)
    × (len (add_state_json digest trail (bytes "3") 7) ≤ max_dag_nodes)
verify_chain-add_example = verify_chain-add digest trail (bytes "3") 7 trail_whole

forged_last_example : verify_nodes (first ∷ forged ∷ []) ≡ verify_nodes (first ∷ second ∷ [])
forged_last_example = forged_last (first ∷ []) second forged refl

abbrev story : List Told
story = record { json = bytes "3"; timestamp = 7 } ∷ record { json = bytes "4"; timestamp = 8 } ∷ []

tell_all-newest_example :
    (tell_all digest trail story).nodes
    ≡ newest (trail.nodes ++ whole_trail digest (last_hash trail.nodes) 2 story)
tell_all-newest_example = tell_all-newest digest trail story (omega arith)
