-- ===== src/Dag/History.antt =====
-- src/merkle_dag.rs: the audit trail against the whole history that it was told.
use ess_p2p_rs.Shared.{
  ℕ, suc, ◌+◌, ◌-◌, ◌%◌, ◌≤◌, ◌≡◌, refl, ap, ◌∙◌, Option, some, List, [], ◌∷◌, ◌++◌, Text, ltb,
  ltb→lt, length, drop, length-append, last_of, last_of-append, drop-append, inl, inr, Bool-cases,
  arith,
}
use mathlib.Core.List.{append_assoc, append-nil}
use ess_p2p_rs.Dag.Chain.{length-pop_excess}
use ess_p2p_rs.Dag.{
  max_dag_nodes, u64_mod, MerkleNode, MerkleDag, last_hash, pop_excess, add_state_json,
}

-- The last `MAX_DAG_NODES` of a list.
abbrev pub newest : List MerkleNode → List MerkleNode
newest ns = last_of max_dag_nodes ns

pop_excess-newest : (ns : List MerkleNode) → pop_excess ns ≡ newest ns
unfolding pop_excess
pop_excess-newest [] = refl
pop_excess-newest (n ∷ ns) = elim (Bool-cases (ltb max_dag_nodes (suc (length ns)))) [
  | inl over ↦
      let e : suc (length ns) - max_dag_nodes ≡ suc (length ns - max_dag_nodes) =
        omega (arith, ltb→lt, over) in
      rw (over, e) (pop_excess-newest ns)
  | inr within ↦ let e : suc (length ns) - max_dag_nodes ≡ 0 = ground arith in rw (within, e) refl
]

newest-append : (xs ys : List MerkleNode) → newest (newest xs ++ ys) ≡ newest (xs ++ ys)
newest-append xs ys = last_of-append max_dag_nodes xs ys

pub record Told : Type 0 where
  pub json : Text
  pub timestamp : ℕ

module _ (sha256_hex : Text → Text) where
  pub tell_all : MerkleDag → List Told → MerkleDag
  tell_all dag [] = dag
  tell_all dag (t ∷ ts) = tell_all (add_state_json sha256_hex dag t.json t.timestamp) ts

  -- The nodes of a trail that drops nothing.
  pub whole_trail : Option Text → ℕ → List Told → List MerkleNode
  whole_trail parent index [] = []
  whole_trail parent index (t ∷ ts) =
      record {
        index = index;
        state_hash = sha256_hex t.json;
        parent_hash = parent;
        timestamp = t.timestamp;
        metadata = [];
      }
      ∷ whole_trail (some (sha256_hex t.json)) ((index + 1) % u64_mod) ts

last_hash-append :
    (ns : List MerkleNode) (n : MerkleNode) → last_hash (ns ++ n ∷ []) ≡ some n.state_hash
unfolding last_hash
last_hash-append [] n = refl
last_hash-append (m ∷ []) n = refl
last_hash-append (m ∷ k ∷ ns) n = last_hash-append (k ∷ ns) n

last_hash-newest :
    (ns : List MerkleNode) (n : MerkleNode) → last_hash (newest (ns ++ n ∷ [])) ≡ some n.state_hash
last_hash-newest ns n =
    let k = length (ns ++ n ∷ []) - max_dag_nodes in
    let e : drop k ns ++ n ∷ [] ≡ drop k (ns ++ n ∷ []) =
      drop-append k ns (n ∷ []) (omega (arith, length-append ns (n ∷ []))) in
    rw (← e) (last_hash-append (drop k ns) n)

absorb :
    (ns : List MerkleNode) (n : MerkleNode) (rest : List MerkleNode)
    → newest (newest (ns ++ n ∷ []) ++ rest) ≡ newest (ns ++ n ∷ rest)
absorb ns n rest =
    newest-append (ns ++ n ∷ []) rest ∙ ap (λ l. newest l) (append_assoc ns (n ∷ []) rest)

module _ (sha256_hex : Text → Text) where
  add_bound :
      (dag : MerkleDag) (t : Told)
      → length (add_state_json sha256_hex dag t.json t.timestamp).nodes ≤ max_dag_nodes
  unfolding add_state_json
  add_bound dag t = length-pop_excess _

  abbrev added : MerkleDag → Told → MerkleNode
  added dag t = record {
    index = dag.next_index;
    state_hash = sha256_hex t.json;
    parent_hash = last_hash dag.nodes;
    timestamp = t.timestamp;
    metadata = [];
  }

  nodes-add :
      (dag : MerkleDag) (t : Told)
      → (add_state_json sha256_hex dag t.json t.timestamp).nodes
        ≡ newest (dag.nodes ++ added dag t ∷ [])
  unfolding add_state_json
  nodes-add dag t = pop_excess-newest _

  next_index-add :
      (dag : MerkleDag) (t : Told)
      → (add_state_json sha256_hex dag t.json t.timestamp).next_index
        ≡ (dag.next_index + 1) % u64_mod
  unfolding add_state_json
  next_index-add dag t = refl

  -- A trail within its bound that is told any number of states holds the newest nodes of the whole
  -- history, up to its bound.
  pub tell_all-newest :
      (dag : MerkleDag) (ts : List Told)
      → length dag.nodes ≤ max_dag_nodes
      → (tell_all sha256_hex dag ts).nodes
        ≡ newest (dag.nodes ++ whole_trail sha256_hex (last_hash dag.nodes) dag.next_index ts)
  unfolding tell_all whole_trail
  tell_all-newest dag [] h =
      let e : length dag.nodes - max_dag_nodes ≡ 0 = omega arith in rw (append-nil, e) refl
  tell_all-newest dag (t ∷ ts) h =
      let next = add_state_json sha256_hex dag t.json t.timestamp in
      let ih = tell_all-newest next ts (add_bound dag t) in
      ih
      ∙ rw (nodes-add dag t, next_index-add dag t, last_hash-newest dag.nodes (added dag t))
          (absorb dag.nodes (added dag t) _)
