-- ===== src/Crdt/World/Merge.antt =====
-- src/crdt_state.rs: merges of whole states agree in any order and grouping.
use ess_p2p_rs.Shared.{ℕ, ◌≡◌, ap, Text, arith}
use ess_p2p_rs.Shared.Order.{text_ord}
use ess_p2p_rs.Crdt.Register
use ess_p2p_rs.Crdt.GrowSet
use ess_p2p_rs.Crdt.Counter
use ess_p2p_rs.Crdt.Counter.{
  GCounter, raise_count, max_counts_comm, max_counts_assoc, max_counts_idem, max_counts-IsSorted,
}
use ess_p2p_rs.Crdt.Registry
use ess_p2p_rs.Crdt.OrSet
use ess_p2p_rs.Crdt.OrSet.Laws.{SameView}
use ess_p2p_rs.Crdt.World.{CrdtWorldState, Encoders, merge, merge_fields, IsWellFormed}

counters_eq : (a b : GCounter) → a.counters ≡ b.counters → a ≡ b
counters_eq a b h = ground (arith, h)

module _ {ℓ} {Score : Type ℓ} where
  -- What a replica shares: all but its name, its audit trail and the times of its known peers.
  pub record SameContents (a b : CrdtWorldState Score) : Type ℓ where
    pub clock : a.vector_clock ≡ b.vector_clock
    pub peers : a.peers ≡ b.peers
    pub known :
        (q : Text) → GrowSet.contains a.known_peer_ids q ≡ GrowSet.contains b.known_peer_ids q
    pub network_status : a.network_status ≡ b.network_status
    pub ghost_state : a.ghost_state ≡ b.ghost_state
    pub finance : a.finance_counter ≡ b.finance_counter
    pub assets : SameView a.asset_ownership b.asset_ownership

  -- Writes that carry one stamp wrote one value.
  pub record AgreesOnTies (a b : CrdtWorldState Score) : Type ℓ where
    pub peers : Registry.Laws.AgreesOnTie a.peers b.peers
    pub network_status : Register.AgreesOnTie a.network_status b.network_status
    pub ghost_state : Register.AgreesOnTie a.ghost_state b.ghost_state

  module _ (e : Encoders Score) where
    pub merge-IsWellFormed :
        (a b : CrdtWorldState Score) (secs : ℕ)
        → IsWellFormed a
        → IsWellFormed b
        → IsWellFormed (merge e a b secs)
    unfolding merge merge_fields Counter.merge
    merge-IsWellFormed a b secs wa wb = record {
      clock = max_counts-IsSorted a.vector_clock b.vector_clock wa.clock;
      peers = Registry.merge-IsWellFormed a.peers b.peers wa.peers;
      known = GrowSet.merge-IsWellFormed a.known_peer_ids b.known_peer_ids wa.known;
      finance =
          max_counts-IsSorted a.finance_counter.counters b.finance_counter.counters wa.finance;
      assets = OrSet.Live.merge-IsWellFormed a.asset_ownership b.asset_ownership wa.assets;
    }

    -- Two well-formed states whose equally stamped writes agree have the same contents after each
    -- merges the other: vector clock, peers, known peer ids, registers, counter and assets.
    pub merge_comm :
        (a b : CrdtWorldState Score) (t u : ℕ)
        → IsWellFormed a
        → IsWellFormed b
        → AgreesOnTies a b
        → SameContents (merge e a b t) (merge e b a u)
    unfolding merge merge_fields Counter.merge
    merge_comm a b t u wa wb ties = record {
      clock = max_counts_comm a.vector_clock b.vector_clock wa.clock wb.clock;
      peers = Registry.Laws.merge_comm a.peers b.peers wa.peers wb.peers ties.peers;
      known =
          λ q. GrowSet.contains-merge_comm q a.known_peer_ids b.known_peer_ids wa.known wb.known;
      network_status = Register.merge_comm a.network_status b.network_status ties.network_status;
      ghost_state = Register.merge_comm a.ghost_state b.ghost_state ties.ghost_state;
      finance = counters_eq _ _ (
          max_counts_comm a.finance_counter.counters b.finance_counter.counters wa.finance
            wb.finance);
      assets = OrSet.Laws.merge_comm a.asset_ownership b.asset_ownership wa.assets wb.assets;
    }

    -- Among three well-formed states it does not matter for the contents which two are merged
    -- first.
    pub merge_assoc :
        (a b c : CrdtWorldState Score) (t u v w : ℕ)
        → IsWellFormed a
        → IsWellFormed b
        → IsWellFormed c
        → SameContents (merge e (merge e a b t) c u) (merge e a (merge e b c v) w)
    unfolding merge merge_fields Counter.merge
    merge_assoc a b c t u v w wa wb wc = record {
      clock =
          max_counts_assoc a.vector_clock b.vector_clock c.vector_clock wa.clock wb.clock wc.clock;
      peers = Registry.Laws.merge_assoc a.peers b.peers c.peers wa.peers wb.peers wc.peers;
      known = λ q.
          ap (λ s. GrowSet.contains s q)
            (GrowSet.merge_assoc a.known_peer_ids b.known_peer_ids c.known_peer_ids wa.known
              wb.known wc.known);
      network_status = Register.merge_assoc a.network_status b.network_status c.network_status;
      ghost_state = Register.merge_assoc a.ghost_state b.ghost_state c.ghost_state;
      finance = counters_eq _ _ (
          max_counts_assoc a.finance_counter.counters b.finance_counter.counters
            c.finance_counter.counters wa.finance wb.finance wc.finance);
      assets =
          OrSet.Laws.merge_assoc a.asset_ownership b.asset_ownership c.asset_ownership wa.assets
            wb.assets wc.assets;
    }

    -- A well-formed state that is merged with itself keeps its contents.
    pub merge_idem :
        (a : CrdtWorldState Score) (t : ℕ) → IsWellFormed a → SameContents (merge e a a t) a
    unfolding merge merge_fields Counter.merge
    merge_idem a t w = record {
      clock = max_counts_idem a.vector_clock w.clock;
      peers = Registry.Laws.merge_idem a.peers w.peers;
      known = λ q. ap (λ s. GrowSet.contains s q) (GrowSet.merge_idem a.known_peer_ids w.known);
      network_status = Register.merge_idem a.network_status;
      ghost_state = Register.merge_idem a.ghost_state;
      finance = counters_eq _ _ (max_counts_idem a.finance_counter.counters w.finance);
      assets = OrSet.Laws.merge_idem a.asset_ownership w.assets;
    }
