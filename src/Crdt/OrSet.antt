-- ===== src/Crdt/OrSet.antt =====
-- src/crdt_state.rs: `ORSet`. The tag of an addition is an argument: the source draws it at random.
pub mod Live
pub mod Laws
use ess_p2p_rs.Shared.{
  ℕ, ◌≡◌, refl, Bool, true, false, not, ◌&&◌, ◌||◌, Option, none, some, List, [], ◌∷◌, Ord,
  unwrap_or, length, map, if◌then◌else◌, arith,
}
use ess_p2p_rs.Shared.Order.{nat_ord}
use ess_p2p_rs.Shared.Dict
use ess_p2p_rs.Shared.Dict.{
  Dict, KeySet, lookup, insert, remove, retain, add, union, any_key, for_entries, IsSorted,
}

pub record OrSet {ℓ} (K : Type ℓ) : Type ℓ where
  pub entries : Dict K (KeySet ℕ)
  pub removed : KeySet ℕ

abbrev pub empty {ℓ} : {K : Type ℓ} → OrSet K
empty = record { entries = []; removed = [] }

-- A tag that no removal has met.
abbrev pub is_live : KeySet ℕ → ℕ → Bool
is_live removed tag = not (Dict.contains tag removed)

module _ {ℓ} {K : Type ℓ} ⦃o : Ord K⦄ where
  unfoldable pub add_item : OrSet K → K → ℕ → OrSet K
  add_item s item tag =
      let tags : KeySet ℕ = unwrap_or (lookup item s.entries) [] in
      record s { entries = insert item (add tag tags) s.entries }

  unfoldable pub remove_item : OrSet K → K → OrSet K
  remove_item s item = elim (lookup item s.entries) [
    | none ↦ s
    | some tags ↦ record { entries = remove item s.entries; removed = union s.removed tags }
  ]

  unfoldable pub contains : OrSet K → K → Bool
  contains s item = elim (lookup item s.entries) [
    | none ↦ false
    | some tags ↦ any_key (is_live s.removed) tags
  ]

  unfoldable pub elements : OrSet K → List K
  elements s = map (λ e. e.0) s.entries

  unfoldable pub len : OrSet K → ℕ
  len s = length s.entries

  -- The body of the first loop of `merge`: the other's tags join this replica's.
  unfoldable pub join_tags : Dict K (KeySet ℕ) → K → KeySet ℕ → Dict K (KeySet ℕ)
  join_tags own item other_tags =
      insert item (union (unwrap_or (lookup item own) []) other_tags) own

  -- The closure of the `retain` that ends `merge`.
  abbrev pub some_live : KeySet ℕ → K → KeySet ℕ → Bool
  some_live removed item tags = any_key (is_live removed) tags

  unfoldable pub merge : OrSet K → OrSet K → OrSet K
  unfolding join_tags
  merge s other =
      let removed : KeySet ℕ = union s.removed other.removed in
      record {
        entries = retain (some_live removed) (for_entries join_tags s.entries other.entries);
        removed = removed;
      }

  abbrev pub IsWellFormed : OrSet K → Type 0
  IsWellFormed s = IsSorted s.entries
