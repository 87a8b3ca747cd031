-- ===== src/Crdt/Counter/Totals.antt =====
-- src/crdt_state.rs: `GCounter::total` under increments and merges, where no sum passes `u64`.
use ess_p2p_rs.Shared.{ℕ, ◌+◌, ◌%◌, ◌≤◌, ◌<◌, ◌≡◌, max, [], ◌∷◌, Text, unwrap_or, arith}
use ess_p2p_rs.Shared.Order.{text_ord}
use ess_p2p_rs.Shared.Dict.{Dict, lookup, insert, IsSorted, Above-trans, lookup-Above, for_entries}
use ess_p2p_rs.Crdt.Counter.{
  GCounter, u64_mod, increment, sum_values, total, raise_count, merge, IsWellFormed,
  raise_count-IsSorted,
}

abbrev count_at : Text → Dict Text ℕ → ℕ
count_at k m = unwrap_or (lookup k m) 0

sum_values-insert :
    (k : Text) (v : ℕ) (m : Dict Text ℕ)
    → IsSorted m
    → sum_values (insert k v m) + count_at k m ≡ sum_values m + v
unfolding sum_values insert lookup
sum_values-insert k v [] w = omega arith
sum_values-insert k v ((j, n) ∷ m) w = ground (
  arith,
  sum_values-insert k v m w.1,
  text_ord.beq_iff j k,
  text_ord.blt_trans k j k,
  text_ord.blt_irrefl k,
  Above-trans k j m,
  lookup-Above k m,
  lookup-Above j m w.0,
)

sum_values-raise_count :
    (m : Dict Text ℕ) (k : Text) (v : ℕ)
    → IsSorted m
    → sum_values m ≤ sum_values (raise_count m k v)
unfolding raise_count
sum_values-raise_count m k v w = omega (arith, sum_values-insert k (max (count_at k m) v) m w)

sum_values-merge :
    (m n : Dict Text ℕ) → IsSorted m → sum_values m ≤ sum_values (for_entries raise_count m n)
unfolding for_entries
sum_values-merge m [] w = omega arith
sum_values-merge m ((k, v) ∷ n) w = omega (
  arith,
  sum_values-raise_count m k v w,
  sum_values-merge (raise_count m k v) n (raise_count-IsSorted m k v w),
)

-- An increment of a well-formed counter adds its amount to the total, if the sum stays below the
-- range of u64.
pub total-increment :
    (c : GCounter) (replica : Text) (delta : ℕ)
    → IsWellFormed c
    → sum_values c.counters + delta < u64_mod
    → total (increment c replica delta) ≡ total c + delta
unfolding total increment
total-increment c replica delta w h = omega (
  arith,
  sum_values-insert replica ((count_at replica c.counters + delta) % u64_mod) c.counters w,
)

-- A merge of a well-formed counter lowers no total, if the sum of the merged counts is below the
-- range of u64.
pub total-merge :
    (a b : GCounter)
    → IsWellFormed a
    → sum_values (merge a b).counters < u64_mod
    → total a ≤ total (merge a b)
unfolding total merge
total-merge a b w h = omega (arith, sum_values-merge a.counters b.counters w)
