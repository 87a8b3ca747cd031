-- ===== src/Tests/Crdt.antt =====
-- src/crdt_state.rs on small replicas. A score is a number of thousandths.
use ess_p2p_rs.Shared.{ℕ, ◌≡◌, ◌↔◌, refl, true, [], ◌∷◌, Text, bytes, arith}
use ess_p2p_rs.Shared.Order.{text_ord, nat_ord}
use ess_p2p_rs.Shared.Dict
use ess_p2p_rs.Shared.Dict.{lookup}
use ess_p2p_rs.Crdt.Register.{LwwRegister}
use ess_p2p_rs.Crdt.Counter
use ess_p2p_rs.Crdt.Counter.{GCounter, u64_mod, total}
use ess_p2p_rs.Crdt.Registry.{PeerRegistry, PeerEntry}
use ess_p2p_rs.Crdt.OrSet
use ess_p2p_rs.Crdt.OrSet.{OrSet}
use ess_p2p_rs.Crdt.OrSet.Live.{tagged, live, contains-live}
use ess_p2p_rs.Crdt.OrSet.Laws.{add_wins}
use ess_p2p_rs.Crdt.World.{CrdtWorldState, Encoders, merge, dominates, IsWellFormed}
use ess_p2p_rs.Crdt.World.Clock.{dominates_iff, NowhereBehind, SomewhereAhead}
use ess_p2p_rs.Crdt.World.Merge.{SameContents, AgreesOnTies, merge_comm, merge_assoc}

abbrev encoders : Encoders ℕ
encoders = record { sha256_hex = λ t. t; to_json = λ s. s.node_id }

abbrev peer : Text → ℕ → PeerEntry ℕ
peer id score = record {
  peer_id = id;
  role = bytes "client";
  connected = true;
  trusted = true;
  reputation_score = score;
  last_seen = 3;
}

abbrev register : Text → Text → ℕ → LwwRegister Text
register value node ts = record { value = value; ts = ts; node_id = node }

abbrev replica : Text → ℕ → CrdtWorldState ℕ
replica node ts = record {
  node_id = node;
  vector_clock = (node, 2) ∷ [];
  peers = record { entries = (node, (peer node ts, ts)) ∷ [] };
  known_peer_ids = record { items = (node, ts) ∷ [] };
  network_status = register node node ts;
  ghost_state = register node node ts;
  finance_counter = record { counters = (node, 5) ∷ [] };
  asset_ownership = record { entries = (bytes "gold", (ts, tt) ∷ []) ∷ []; removed = [] };
  dag = record { nodes = []; next_index = 0 };
}

abbrev here : CrdtWorldState ℕ
here = replica (bytes "a") 1

abbrev there : CrdtWorldState ℕ
there = replica (bytes "b") 2

replica-IsWellFormed : (node : Text) (ts : ℕ) → IsWellFormed (replica node ts)
replica-IsWellFormed node ts = record {
  clock = (tt, tt);
  peers = (tt, tt);
  known = (tt, tt);
  finance = (tt, tt);
  assets = (tt, tt);
}

replicas_agree : AgreesOnTies here there
unfolding lookup
replicas_agree = record {
  peers = λ q x y ts h k. ground arith;
  network_status = λ h k. cc;
  ghost_state = λ h k. cc;
}

merge_comm_example : SameContents (merge encoders here there 9) (merge encoders there here 9)
merge_comm_example =
    merge_comm encoders here there 9 9 (replica-IsWellFormed (bytes "a") 1)
      (replica-IsWellFormed (bytes "b") 2) replicas_agree

merge_assoc_example :
    SameContents
      (merge encoders (merge encoders here there 9) here 9)
      (merge encoders here (merge encoders there here 9) 9)
merge_assoc_example =
    merge_assoc encoders here there here 9 9 9 9 (replica-IsWellFormed (bytes "a") 1)
      (replica-IsWellFormed (bytes "b") 2) (replica-IsWellFormed (bytes "a") 1)

dominates_iff_example : (dominates here there ≡ true) ↔ (
    NowhereBehind here.vector_clock there.vector_clock
    × SomewhereAhead here.vector_clock there.vector_clock)
dominates_iff_example = dominates_iff here there (tt, tt)

abbrev rival : PeerRegistry ℕ
rival = record { entries = (bytes "a", (peer (bytes "a") 7, 1)) ∷ [] }

abbrev gold : Text
gold = bytes "gold"

add_wins_example :
    OrSet.contains
      (OrSet.merge
        (OrSet.remove_item here.asset_ownership gold)
        (OrSet.add_item there.asset_ownership gold 8))
      gold
    ≡ true
unfolding tagged lookup
add_wins_example =
    add_wins here.asset_ownership there.asset_ownership gold 8 (tt, tt) (tt, tt) refl refl refl

contains-live_example :
    (OrSet.contains here.asset_ownership gold ≡ true)
    ↔ ((tag : ℕ) × (live here.asset_ownership gold tag ≡ true))
contains-live_example = contains-live here.asset_ownership gold

-- `test_gcounter_increment_and_merge`
counts_merged :
    total (
      Counter.merge
        (Counter.increment (Counter.increment Counter.empty (bytes "node-1") 10) (bytes "node-2") 5)
        (Counter.increment (Counter.increment Counter.empty (bytes "node-2") 8) (bytes "node-3") 2))
    ≡ 20
unfolding total Counter.sum_values Counter.merge Counter.increment Counter.raise_count
    Dict.for_entries Dict.insert lookup
counts_merged = refl
