-- ===== src/Crdt/World.antt =====
-- src/crdt_state.rs: `CrdtWorldState`, the replicated state of a node. Its JSON text, the digest of a
-- text in hexadecimal and the clock readings are arguments; so is the score of a new peer, `1.0`.
pub mod Merge
pub mod Clock
use ess_p2p_rs.Shared.{
  ℕ, ◌+◌, ◌%◌, Bool, true, false, ◌||◌, Option, none, some, [], ◌∷◌, Text, bytes, ltb, unwrap_or,
  if◌then◌else◌,
}
use ess_p2p_rs.Shared.Order.{text_ord}
use ess_p2p_rs.Shared.Dict.{Dict, lookup, insert, for_entries, IsSorted}
use ess_p2p_rs.Crdt.Register
use ess_p2p_rs.Crdt.Register.{LwwRegister}
use ess_p2p_rs.Crdt.GrowSet
use ess_p2p_rs.Crdt.GrowSet.{GSet}
use ess_p2p_rs.Crdt.Counter
use ess_p2p_rs.Crdt.Counter.{GCounter, u64_mod, raise_count}
use ess_p2p_rs.Crdt.Registry
use ess_p2p_rs.Crdt.Registry.{PeerRegistry, PeerEntry}
use ess_p2p_rs.Crdt.OrSet
use ess_p2p_rs.Crdt.OrSet.{OrSet}
use ess_p2p_rs.Dag
use ess_p2p_rs.Dag.{MerkleDag, add_state_json}

pub record CrdtWorldState {ℓ} (Score : Type ℓ) : Type ℓ where
  pub node_id : Text
  pub vector_clock : Dict Text ℕ
  pub peers : PeerRegistry Score
  pub known_peer_ids : GSet Text
  pub network_status : LwwRegister Text
  pub ghost_state : LwwRegister Text
  pub finance_counter : GCounter
  pub asset_ownership : OrSet Text
  pub dag : MerkleDag

-- What the state calls outside this repository: SHA-256 and serde_json. The text leaves `dag` out,
-- which is marked `#[serde(skip)]`.
pub record Encoders {ℓ} (Score : Type ℓ) : Type ℓ where
  pub sha256_hex : Text → Text
  pub to_json : CrdtWorldState Score → Text

-- The loop of `dominates`, with its early return.
unfoldable pub dominates_loop : Dict Text ℕ → Bool → Dict Text ℕ → Bool
dominates_loop other greater [] = greater
dominates_loop other greater ((node, our_count) ∷ m) =
    let their_count : ℕ = unwrap_or (lookup node other) 0 in
    let rest = dominates_loop other (greater || ltb their_count our_count) m in
    if ltb our_count their_count then false else rest

module _ {ℓ} {Score : Type ℓ} where
  pub new : Text → ℕ → CrdtWorldState Score
  new node_id now_ms = record {
    node_id = node_id;
    vector_clock = (node_id, 0) ∷ [];
    peers = Registry.empty;
    known_peer_ids = GrowSet.empty;
    network_status = Register.new (bytes "initializing") node_id now_ms;
    ghost_state = Register.new (bytes "init") node_id now_ms;
    finance_counter = Counter.empty;
    asset_ownership = OrSet.empty;
    dag = Dag.new;
  }

  unfoldable pub tick : CrdtWorldState Score → CrdtWorldState Score
  tick s =
      let counter : ℕ = unwrap_or (lookup s.node_id s.vector_clock) 0 in
      record s { vector_clock = insert s.node_id ((counter + 1) % u64_mod) s.vector_clock }

  -- The JSON text of the state goes into the audit trail.
  unfoldable pub audit : Encoders Score → CrdtWorldState Score → ℕ → CrdtWorldState Score
  audit e s secs = record s { dag = add_state_json e.sha256_hex s.dag (e.to_json s) secs }

  -- The fields that `merge` joins, before the audit.
  unfoldable pub merge_fields : CrdtWorldState Score → CrdtWorldState Score → CrdtWorldState Score
  merge_fields s other = record s {
    vector_clock = for_entries raise_count s.vector_clock other.vector_clock;
    peers = Registry.merge s.peers other.peers;
    known_peer_ids = GrowSet.merge s.known_peer_ids other.known_peer_ids;
    network_status = Register.merge s.network_status other.network_status;
    ghost_state = Register.merge s.ghost_state other.ghost_state;
    finance_counter = Counter.merge s.finance_counter other.finance_counter;
    asset_ownership = OrSet.merge s.asset_ownership other.asset_ownership;
  }

  unfoldable pub merge :
      Encoders Score → CrdtWorldState Score → CrdtWorldState Score → ℕ → CrdtWorldState Score
  unfolding audit
  merge e s other secs = audit e (merge_fields s other) secs

  unfoldable pub dominates : CrdtWorldState Score → CrdtWorldState Score → Bool
  dominates s other = dominates_loop other.vector_clock false s.vector_clock

  unfoldable pub update_peer :
      Encoders Score
      → Score
      → CrdtWorldState Score
      → Text
      → Text
      → Bool
      → Bool
      → ℕ
      → ℕ
      → ℕ
      → CrdtWorldState Score
  unfolding tick audit
  update_peer e one s peer_id role connected trusted ts seen_ms secs =
      let ticked = tick s in
      let entry : PeerEntry Score = record {
        peer_id = peer_id;
        role = role;
        connected = connected;
        trusted = trusted;
        reputation_score = one;
        last_seen = ts;
      } in
      audit e
        (record ticked {
          known_peer_ids = GrowSet.insert_item s.known_peer_ids peer_id seen_ms;
          peers = Registry.upsert s.peers entry ts;
        })
        secs

  -- The maps of the state are maps.
  pub record IsWellFormed (s : CrdtWorldState Score) : Type 0 where
    pub clock : IsSorted s.vector_clock
    pub peers : Registry.IsWellFormed s.peers
    pub known : GrowSet.IsWellFormed s.known_peer_ids
    pub finance : Counter.IsWellFormed s.finance_counter
    pub assets : OrSet.IsWellFormed s.asset_ownership
