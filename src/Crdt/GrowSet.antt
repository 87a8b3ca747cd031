-- ===== src/Crdt/GrowSet.antt =====
-- src/crdt_state.rs: `GSet`, whose items keep the time at which this replica first saw them.
use ess_p2p_rs.Shared.{ℕ, ◌≡◌, Bool, ◌||◌, some, Ord, unwrap_or, length, [], arith}
use ess_p2p_rs.Shared.Dict.{
  Dict, lookup, or_insert, contains_key, lookup-or_insert, or_insert-IsSorted, IsSorted, Dict-ext,
  for_entries, joined, lookup-for_entries, for_entries_inv,
}

pub record GSet {ℓ} (K : Type ℓ) : Type ℓ where
  pub items : Dict K ℕ

abbrev pub empty {ℓ} : {K : Type ℓ} → GSet K
empty = record { items = [] }

module _ {ℓ} {K : Type ℓ} ⦃o : Ord K⦄ where
  unfoldable pub insert_item : GSet K → K → ℕ → GSet K
  insert_item s item now_ms = record { items = or_insert item now_ms s.items }

  unfoldable pub contains : GSet K → K → Bool
  contains s item = contains_key item s.items

  unfoldable pub len : GSet K → ℕ
  len s = length s.items

  -- The body of the loop of `merge`.
  abbrev pub take_item : Dict K ℕ → K → ℕ → Dict K ℕ
  take_item own item ts = or_insert item ts own

  unfoldable pub merge : GSet K → GSet K → GSet K
  merge s other = record { items = for_entries take_item s.items other.items }

  abbrev pub IsWellFormed : GSet K → Type 0
  IsWellFormed s = IsSorted s.items

  pub insert_item-IsWellFormed :
      (s : GSet K) (item : K) (now_ms : ℕ)
      → IsWellFormed s
      → IsWellFormed (insert_item s item now_ms)
  unfolding insert_item
  insert_item-IsWellFormed s item now_ms w = or_insert-IsSorted item now_ms s.items w

  pub merge-IsWellFormed : (a b : GSet K) → IsWellFormed a → IsWellFormed (merge a b)
  unfolding merge
  merge-IsWellFormed a b w =
      for_entries_inv IsSorted take_item (λ m k v. or_insert-IsSorted k v m) a.items b.items w

  -- At each item the merge keeps this replica's entry, and else takes the other's.
  pub lookup-merge :
      (q : K) (a b : GSet K)
      → IsWellFormed b
      → lookup q (merge a b).items
        ≡ joined (λ own ts. unwrap_or own ts) (lookup q a.items) (lookup q b.items)
  unfolding merge
  lookup-merge q a b w =
      lookup-for_entries (λ own ts. unwrap_or own ts) take_item
        (λ m k j v. lookup-or_insert k j v m) q a.items b.items w

  pub contains-insert_item :
      (s : GSet K) (item q : K) (now_ms : ℕ)
      → contains (insert_item s item now_ms) q ≡ (o.beq item q || contains s q)
  unfolding insert_item contains
  contains-insert_item s item q now_ms =
      ground (arith, lookup-or_insert item q now_ms s.items, o.beq_iff item q)

  pub contains-merge :
      (q : K) (a b : GSet K)
      → IsWellFormed b
      → contains (merge a b) q ≡ (contains a q || contains b q)
  unfolding contains
  contains-merge q a b w = ground (arith, lookup-merge q a b w)

  pub merge_idem : (a : GSet K) → IsWellFormed a → merge a a ≡ a
  merge_idem a w =
      let e : (merge a a).items ≡ a.items =
        Dict-ext (merge a a).items a.items (merge-IsWellFormed a a w) w
          (λ q. ground (arith, lookup-merge q a a w)) in
      ground (arith, e)

  pub merge_assoc :
      (a b c : GSet K)
      → IsWellFormed a
      → IsWellFormed b
      → IsWellFormed c
      → merge (merge a b) c ≡ merge a (merge b c)
  merge_assoc a b c wa wb wc =
      let wab = merge-IsWellFormed a b wa in
      let wbc = merge-IsWellFormed b c wb in
      let e : (merge (merge a b) c).items ≡ (merge a (merge b c)).items =
        Dict-ext (merge (merge a b) c).items (merge a (merge b c)).items
          (merge-IsWellFormed (merge a b) c wab) (merge-IsWellFormed a (merge b c) wa)
          (λ q. ground (
            arith,
            lookup-merge q (merge a b) c wc,
            lookup-merge q a b wb,
            lookup-merge q a (merge b c) wbc,
            lookup-merge q b c wc,
          )) in
      ground (arith, e)

  -- The members agree in either order; the times need not.
  pub contains-merge_comm :
      (q : K) (a b : GSet K)
      → IsWellFormed a
      → IsWellFormed b
      → contains (merge a b) q ≡ contains (merge b a) q
  contains-merge_comm q a b wa wb = ground (arith, contains-merge q a b wb, contains-merge q b a wa)

  pub merge_keeps_times :
      (q : K) (a b : GSet K) (t u : ℕ)
      → IsWellFormed a
      → IsWellFormed b
      → lookup q a.items ≡ some t
      → lookup q b.items ≡ some u
      → (lookup q (merge a b).items ≡ some t) × (lookup q (merge b a).items ≡ some u)
  merge_keeps_times q a b t u wa wb ha hb =
      ground (arith, lookup-merge q a b wb, lookup-merge q b a wa)
