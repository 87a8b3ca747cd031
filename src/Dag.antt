-- ===== src/Dag.antt =====
-- src/merkle_dag.rs: the audit trail of a node's state. The digest of a state in hexadecimal, and the
-- clock, are arguments.
pub mod Chain
pub mod History
use ess_p2p_rs.Shared.{
  ℕ, suc, ◌+◌, ◌%◌, ◌^◌, Bool, true, false, Option, none, some, List, [], ◌∷◌, ◌++◌, Text, ltb,
  length, if◌then◌else◌, ◌&&◌,
}
use ess_p2p_rs.Shared.Order.{text_ord}

abbrev pub max_dag_nodes : ℕ
max_dag_nodes = 1024

abbrev pub u64_mod : ℕ
u64_mod = 2 ^ 64

pub record MerkleNode : Type 0 where
  pub index : ℕ
  pub state_hash : Text
  pub parent_hash : Option Text
  pub timestamp : ℕ
  pub metadata : Text

-- The oldest node stands first.
pub record MerkleDag : Type 0 where
  pub nodes : List MerkleNode
  pub next_index : ℕ

abbrev pub new : MerkleDag
new = record { nodes = []; next_index = 0 }

-- `self.nodes.back().map(|node| node.state_hash.clone())`
unfoldable pub last_hash : List MerkleNode → Option Text
last_hash [] = none
last_hash (n ∷ []) = some n.state_hash
last_hash (n ∷ m ∷ ns) = last_hash (m ∷ ns)

-- `while self.nodes.len() > MAX_DAG_NODES { self.nodes.pop_front(); }`
unfoldable pub pop_excess : List MerkleNode → List MerkleNode
pop_excess [] = []
pop_excess (n ∷ ns) =
    let rest = pop_excess ns in if ltb max_dag_nodes (suc (length ns)) then rest else n ∷ ns

unfoldable pub add_state_json : (Text → Text) → MerkleDag → Text → ℕ → MerkleDag
add_state_json sha256_hex dag json timestamp =
    let node : MerkleNode = record {
      index = dag.next_index;
      state_hash = sha256_hex json;
      parent_hash = last_hash dag.nodes;
      timestamp = timestamp;
      metadata = [];
    } in
    record {
      nodes = pop_excess (dag.nodes ++ node ∷ []);
      next_index = (dag.next_index + 1) % u64_mod;
    }

-- `node.parent_hash.as_deref() == Some(&prev.state_hash)`
unfoldable pub names_parent : MerkleNode → MerkleNode → Bool
names_parent prev node = elim node.parent_hash [
  | none ↦ false
  | some h ↦ text_ord.beq h prev.state_hash
]

unfoldable pub all_linked : MerkleNode → List MerkleNode → Bool
unfolding names_parent
all_linked prev [] = true
all_linked prev (n ∷ ns) = names_parent prev n && all_linked n ns

unfoldable pub verify_nodes : List MerkleNode → Bool
unfolding all_linked
verify_nodes [] = true
verify_nodes (n ∷ ns) = all_linked n ns

unfoldable pub verify_chain : MerkleDag → Bool
unfolding verify_nodes
verify_chain dag = verify_nodes dag.nodes

unfoldable pub len : MerkleDag → ℕ
len dag = length dag.nodes
