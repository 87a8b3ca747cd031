-- ===== src/Crdt/Counter.antt =====
-- src/crdt_state.rs: `GCounter`. Counts are `u64` and wrap, as in the release profile.
pub mod Totals
use mathlib.Core.List.Perm
use ess_p2p_rs.Shared.{
  ℕ, ◌+◌, ◌%◌, ◌^◌, ◌≤◌, ◌<◌, ◌≡◌, refl, max, List, [], ◌∷◌, Bool, true, false, Option, none, some,
  Text, Ord, unwrap_or, if◌then◌else◌, arith,
}
use ess_p2p_rs.Shared.Order.{text_ord}
use ess_p2p_rs.Shared.Dict.{
  Dict, lookup, insert, lookup-insert, insert-IsSorted, IsSorted, Dict-ext, for_entries, joined,
  lookup-for_entries, for_entries_inv,
}

abbrev pub u64_mod : ℕ
u64_mod = 2 ^ 64

pub record GCounter : Type 0 where
  pub counters : Dict Text ℕ

abbrev pub empty : GCounter
empty = record { counters = [] }

unfoldable pub increment : GCounter → Text → ℕ → GCounter
increment c replica delta =
    let own : ℕ = unwrap_or (lookup replica c.counters) 0 in
    record { counters = insert replica ((own + delta) % u64_mod) c.counters }

unfoldable pub sum_values : Dict Text ℕ → ℕ
sum_values [] = 0
sum_values ((k, n) ∷ m) = n + sum_values m

-- `values().sum()` wraps once per addition, which is to wrap at the end.
unfoldable pub total : GCounter → ℕ
total c = sum_values c.counters % u64_mod

-- The body of the loops that keep the greater count: `*own = (*own).max(value)`.
unfoldable pub raise_count : Dict Text ℕ → Text → ℕ → Dict Text ℕ
raise_count own replica value = insert replica (max (unwrap_or (lookup replica own) 0) value) own

unfoldable pub merge : GCounter → GCounter → GCounter
merge c other = record { counters = for_entries raise_count c.counters other.counters }

abbrev pub IsWellFormed : GCounter → Type 0
IsWellFormed c = IsSorted c.counters

abbrev pub greater : Option ℕ → ℕ → ℕ
greater own value = max (unwrap_or own 0) value

pub raise_count-IsSorted :
    (m : Dict Text ℕ) (k : Text) (v : ℕ) → IsSorted m → IsSorted (raise_count m k v)
unfolding raise_count
raise_count-IsSorted m k v w = insert-IsSorted k (max (unwrap_or (lookup k m) 0) v) m w

pub max_counts-IsSorted : (m n : Dict Text ℕ) → IsSorted m → IsSorted (for_entries raise_count m n)
unfolding raise_count
max_counts-IsSorted m n w =
    for_entries_inv IsSorted raise_count
      (λ s k v. insert-IsSorted k (max (unwrap_or (lookup k s) 0) v) s) m n w

pub lookup-max_counts :
    (q : Text) (m n : Dict Text ℕ)
    → IsSorted n
    → lookup q (for_entries raise_count m n) ≡ joined greater (lookup q m) (lookup q n)
unfolding raise_count
lookup-max_counts q m n w =
    lookup-for_entries greater raise_count
      (λ s k j v. lookup-insert k j (max (unwrap_or (lookup k s) 0) v) s) q m n w

module _ (m n : Dict Text ℕ) (wm : IsSorted m) (wn : IsSorted n) where
  pub max_counts_comm : for_entries raise_count m n ≡ for_entries raise_count n m
  max_counts_comm =
      Dict-ext (for_entries raise_count m n) (for_entries raise_count n m)
        (max_counts-IsSorted m n wm) (max_counts-IsSorted n m wn)
        (λ q. ground (arith, lookup-max_counts q m n wn, lookup-max_counts q n m wm))

pub max_counts_idem : (m : Dict Text ℕ) → IsSorted m → for_entries raise_count m m ≡ m
max_counts_idem m w =
    Dict-ext (for_entries raise_count m m) m (max_counts-IsSorted m m w) w
      (λ q. ground (arith, lookup-max_counts q m m w))

pub max_counts_assoc :
    (m n p : Dict Text ℕ)
    → IsSorted m
    → IsSorted n
    → IsSorted p
    → for_entries raise_count (for_entries raise_count m n) p
      ≡ for_entries raise_count m (for_entries raise_count n p)
max_counts_assoc m n p wm wn wp =
    let mn = for_entries raise_count m n in
    let np = for_entries raise_count n p in
    let wmn = max_counts-IsSorted m n wm in
    let wnp = max_counts-IsSorted n p wn in
    Dict-ext (for_entries raise_count mn p) (for_entries raise_count m np)
      (max_counts-IsSorted mn p wmn) (max_counts-IsSorted m np wm)
      (λ q. ground (
        arith,
        lookup-max_counts q mn p wp,
        lookup-max_counts q m n wn,
        lookup-max_counts q m np wnp,
        lookup-max_counts q n p wp,
      ))
