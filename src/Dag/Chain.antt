-- ===== src/Dag/Chain.antt =====
-- src/merkle_dag.rs: the chain of digests, its bound, and what a check of it finds.
use ess_p2p_rs.Shared.{
  ℕ, ◌≤◌, ◌≡◌, ◌≢◌, refl, true, false, some, List, [], ◌∷◌, ◌++◌, Text, length, inl, inr, ◌↔◌,
  Bool-cases, Option-cases, arith,
}
use ess_p2p_rs.Shared.Order.{text_ord, beq_refl}
use ess_p2p_rs.Dag.{
  max_dag_nodes, MerkleNode, MerkleDag, last_hash, pop_excess, add_state_json, names_parent,
  all_linked, verify_nodes, verify_chain, len,
}

pub length-pop_excess : (ns : List MerkleNode) → length (pop_excess ns) ≤ max_dag_nodes
unfolding pop_excess
length-pop_excess [] = omega arith
length-pop_excess (n ∷ ns) = ground (arith, length-pop_excess ns)

verify_tail :
    (n : MerkleNode) (ns : List MerkleNode) → all_linked n ns ≡ true → verify_nodes ns ≡ true
unfolding verify_nodes
verify_tail n [] h = refl
verify_tail n (m ∷ ns) h = ground arith

verify-pop_excess :
    (ns : List MerkleNode) → verify_nodes ns ≡ true → verify_nodes (pop_excess ns) ≡ true
unfolding verify_nodes pop_excess
verify-pop_excess [] h = refl
verify-pop_excess (n ∷ ns) h = ground (arith, verify_tail n ns, verify-pop_excess ns)

all_linked-append :
    (n : MerkleNode) (ns : List MerkleNode) (new_node : MerkleNode)
    → all_linked n ns ≡ true
    → new_node.parent_hash ≡ last_hash (n ∷ ns)
    → all_linked n (ns ++ new_node ∷ []) ≡ true
unfolding all_linked last_hash
all_linked-append n [] new_node h e = ground (arith, beq_refl n.state_hash)
all_linked-append n (m ∷ ns) new_node h e = ground (arith, all_linked-append m ns new_node)

verify-append :
    (ns : List MerkleNode) (new_node : MerkleNode)
    → verify_nodes ns ≡ true
    → new_node.parent_hash ≡ last_hash ns
    → verify_nodes (ns ++ new_node ∷ []) ≡ true
unfolding verify_nodes
verify-append [] new_node h e = refl
verify-append (n ∷ ns) new_node h e = all_linked-append n ns new_node h e

-- A trail whose links verify still verifies after a state is added, and is then within its bound of
-- nodes.
pub verify_chain-add :
    (sha256_hex : Text → Text) (dag : MerkleDag) (json : Text) (timestamp : ℕ)
    → verify_chain dag ≡ true
    → (verify_chain (add_state_json sha256_hex dag json timestamp) ≡ true)
      × (len (add_state_json sha256_hex dag json timestamp) ≤ max_dag_nodes)
unfolding verify_chain add_state_json len
verify_chain-add sha256_hex dag json timestamp h =
    (verify-pop_excess _ (verify-append dag.nodes _ h refl), length-pop_excess _)

names_parent_iff :
    (prev node : MerkleNode)
    → (names_parent prev node ≡ true) ↔ (node.parent_hash ≡ some prev.state_hash)
unfolding names_parent
names_parent_iff prev node = elim (Option-cases node.parent_hash) [
  | inl e ↦ ground (arith, e)
  | inr (h, e) ↦ ground (arith, e, text_ord.beq_iff h prev.state_hash)
]

linked_tampered :
    (p : MerkleNode) (before after : List MerkleNode) (n m next : MerkleNode)
    → all_linked p (before ++ n ∷ next ∷ after) ≡ true
    → m.state_hash ≢ n.state_hash
    → all_linked p (before ++ m ∷ next ∷ after) ≡ false
unfolding all_linked
linked_tampered p [] after n m next h differ =
    let known : next.parent_hash ≡ some n.state_hash = (names_parent_iff n next).0 (ground arith) in
    elim (Bool-cases (names_parent m next)) [
      | inl same ↦
          let other : next.parent_hash ≡ some m.state_hash = (names_parent_iff m next).0 same in
          absurd (differ (cc))
      | inr caught ↦ ground (arith, caught)
    ]
linked_tampered p (b ∷ before) after n m next h differ =
    ground (arith, linked_tampered b before after n m next)

-- If a trail verifies and the digest of a node that is not the last is changed, the trail no longer
-- verifies.
pub tampered_hash :
    (before after : List MerkleNode) (n m next : MerkleNode)
    → verify_nodes (before ++ n ∷ next ∷ after) ≡ true
    → m.state_hash ≢ n.state_hash
    → verify_nodes (before ++ m ∷ next ∷ after) ≡ false
unfolding verify_nodes all_linked
tampered_hash [] after n m next h differ =
    let known : next.parent_hash ≡ some n.state_hash = (names_parent_iff n next).0 (ground arith) in
    elim (Bool-cases (names_parent m next)) [
      | inl same ↦
          let other : next.parent_hash ≡ some m.state_hash = (names_parent_iff m next).0 same in
          absurd (differ (cc))
      | inr caught ↦ ground (arith, caught)
    ]
tampered_hash (b ∷ before) after n m next h differ =
    linked_tampered b before after n m next h differ

-- The newest digest has no node after it: with its link kept, any other passes the check.
linked_last :
    (p : MerkleNode) (before : List MerkleNode) (n m : MerkleNode)
    → m.parent_hash ≡ n.parent_hash
    → all_linked p (before ++ m ∷ []) ≡ all_linked p (before ++ n ∷ [])
unfolding all_linked
linked_last p [] n m e = ground (arith, names_parent_iff p n, names_parent_iff p m)
linked_last p (b ∷ before) n m e = ground (arith, linked_last b before n m)

pub forged_last :
    (before : List MerkleNode) (n m : MerkleNode)
    → m.parent_hash ≡ n.parent_hash
    → verify_nodes (before ++ m ∷ []) ≡ verify_nodes (before ++ n ∷ [])
unfolding verify_nodes
forged_last [] n m e = refl
forged_last (b ∷ before) n m e = linked_last b before n m e
