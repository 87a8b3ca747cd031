-- ===== src/Crdt/OrSet/Live.antt =====
-- src/crdt_state.rs: `ORSet` seen as a set of additions, the tagged items, and a set of removed tags.
use ess_p2p_rs.Shared.{
  ℕ, ◌≡◌, ◌↔◌, refl, Bool, true, not, ◌&&◌, ◌||◌, Option, none, some, inl, inr, [], Ord, unwrap_or,
  Option-cases, Bool-cases, arith,
}
use ess_p2p_rs.Shared.Order.{nat_ord}
use ess_p2p_rs.Shared.Dict
use ess_p2p_rs.Shared.Dict.{
  KeySet, lookup, insert, lookup-insert, insert-IsSorted, remove, lookup-remove, remove-IsSorted,
  retain-IsSorted, lookup-retain, add, contains-add, union, contains-union, any_key, any_key_sound,
  any_key_complete, for_entries, lookup-for_entries, for_entries_inv, joined, IsSorted,
}
use ess_p2p_rs.Crdt.OrSet.{OrSet, is_live, some_live, contains, join_tags, merge, IsWellFormed}

live_of_kept :
    (p : KeySet ℕ → Bool) (removed : KeySet ℕ) (e : Option (KeySet ℕ)) (tag : ℕ)
    → ((tags : KeySet ℕ) → p tags ≡ any_key (is_live removed) tags)
    → (Dict.contains tag (unwrap_or (Dict.keep p e) []) && is_live removed tag)
      ≡ (Dict.contains tag (unwrap_or e []) && is_live removed tag)
live_of_kept p removed none tag h = refl
live_of_kept p removed (some tags) tag h = elim (Bool-cases (any_key (is_live removed) tags)) [
  | inl kept ↦ ground (arith, h tags)
  | inr dropped ↦
      ground (arith, h tags, Dict.contains-nil tag, any_key_complete (is_live removed) tag tags)
]

module _ {ℓ} {K : Type ℓ} ⦃o : Ord K⦄ where
  abbrev pub tags_of : OrSet K → K → KeySet ℕ
  tags_of s item = unwrap_or (lookup item s.entries) []

  -- The addition `tag` of `item` is known here.
  unfoldable pub tagged : OrSet K → K → ℕ → Bool
  tagged s item tag = Dict.contains tag (tags_of s item)

  -- It is known, and no removal has met it.
  unfoldable pub live : OrSet K → K → ℕ → Bool
  unfolding tagged
  live s item tag = tagged s item tag && is_live s.removed tag

  -- An item is a member exactly when it has a live addition.
  pub contains-live :
      (s : OrSet K) (item : K) → (contains s item ≡ true) ↔ ((tag : ℕ) × (live s item tag ≡ true))
  unfolding contains live lookup
  contains-live s item = elim (Option-cases (lookup item s.entries)) [
    | inl e ↦ (λ h. absurd (ground arith), λ h. ground (arith, h.1))
    | inr (tags, e) ↦ (
      λ h.
          let (tag, c, d) = any_key_sound (is_live s.removed) tags (ground arith) in
          (tag, ground arith),
      λ h. ground (arith, h.1, any_key_complete (is_live s.removed) h.0 tags),
    )
  ]

  join_entries : OrSet K → OrSet K → K → Option (KeySet ℕ)
  join_entries a b item =
      joined (λ own other. union (unwrap_or own []) other) (lookup item a.entries)
        (lookup item b.entries)

  lookup-join_tags :
      (a b : OrSet K) (item : K)
      → IsWellFormed b
      → lookup item (for_entries join_tags a.entries b.entries) ≡ join_entries a b item
  unfolding join_entries join_tags
  lookup-join_tags a b item w =
      lookup-for_entries (λ own other. union (unwrap_or own []) other) join_tags
        (λ m k j v. lookup-insert k j (union (unwrap_or (lookup k m) []) v) m) item a.entries
        b.entries w

  join_tags-IsSorted :
      (a b : OrSet K) → IsWellFormed a → IsSorted (for_entries join_tags a.entries b.entries)
  unfolding join_tags
  join_tags-IsSorted a b w =
      for_entries_inv IsSorted join_tags
        (λ m k v. insert-IsSorted k (union (unwrap_or (lookup k m) []) v) m) a.entries b.entries w

  pub merge-IsWellFormed : (a b : OrSet K) → IsWellFormed a → IsWellFormed (merge a b)
  unfolding merge
  merge-IsWellFormed a b w =
      retain-IsSorted (some_live (union a.removed b.removed)) _ (join_tags-IsSorted a b w)

  contains-join_entries :
      (a b : OrSet K) (item : K) (tag : ℕ)
      → Dict.contains tag (unwrap_or (join_entries a b item) [])
        ≡ (tagged a item tag || tagged b item tag)
  unfolding join_entries tagged lookup
  contains-join_entries a b item tag = elim (Option-cases (lookup item b.entries)) [
    | inl e ↦ ground (arith, e)
    | inr (tags, e) ↦ ground (arith, contains-union tag (tags_of a item) tags, e)
  ]

  -- The removals of both sides are known after a merge.
  pub removed-merge :
      (a b : OrSet K) (tag : ℕ)
      → Dict.contains tag (merge a b).removed
        ≡ (Dict.contains tag a.removed || Dict.contains tag b.removed)
  unfolding merge
  removed-merge a b tag = contains-union tag a.removed b.removed

  -- A merge of well-formed sets keeps exactly those additions that either side knows and neither
  -- side has removed.
  pub live-merge :
      (a b : OrSet K) (item : K) (tag : ℕ)
      → IsWellFormed a
      → IsWellFormed b
      → live (merge a b) item tag ≡ (
          (tagged a item tag || tagged b item tag)
          && not (Dict.contains tag a.removed || Dict.contains tag b.removed))
  unfolding live merge
  live-merge a b item tag wa wb =
      let removed = union a.removed b.removed in
      let own = for_entries join_tags a.entries b.entries in
      ground (
        arith,
        lookup-retain item (some_live removed) own (join_tags-IsSorted a b wa),
        lookup-join_tags a b item wb,
        live_of_kept (some_live removed item) removed (join_entries a b item) tag (λ tags. refl),
        contains-join_entries a b item tag,
        contains-union tag a.removed b.removed,
      )
