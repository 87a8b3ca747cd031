-- ===== src/Crdt/OrSet/Laws.antt =====
-- src/crdt_state.rs: what additions, removals and merges of an `ORSet` do to its live additions.
use ess_p2p_rs.Shared.{
  ℕ, ◌≡◌, sym, ◌∙◌, true, false, not, ◌&&◌, ◌||◌, inl, inr, [], Ord, unwrap_or, Option-cases, arith,
}
use ess_p2p_rs.Shared.Order.{nat_ord, beq_refl}
use ess_p2p_rs.Shared.Dict
use ess_p2p_rs.Shared.Dict.{
  KeySet, lookup, insert, lookup-insert, insert-IsSorted, remove, lookup-remove, remove-IsSorted,
  add, contains-add, union, contains-union, contains-nil,
}
use ess_p2p_rs.Crdt.OrSet.{OrSet, is_live, add_item, remove_item, contains, merge, IsWellFormed}
use ess_p2p_rs.Crdt.OrSet.Live.{
  tags_of, tagged, live, contains-live, merge-IsWellFormed, removed-merge, live-merge,
}

module _ {ℓ} {K : Type ℓ} ⦃o : Ord K⦄ where
  -- The same live additions and the same removals.
  pub record SameView (a b : OrSet K) : Type ℓ where
    pub lives : (item : K) (tag : ℕ) → live a item tag ≡ live b item tag
    pub removes : (tag : ℕ) → Dict.contains tag a.removed ≡ Dict.contains tag b.removed

  pub add_item-IsWellFormed :
      (s : OrSet K) (item : K) (tag : ℕ) → IsWellFormed s → IsWellFormed (add_item s item tag)
  unfolding add_item
  add_item-IsWellFormed s item tag w =
      insert-IsSorted item (add tag (unwrap_or (lookup item s.entries) [])) s.entries w

  pub remove_item-IsWellFormed :
      (s : OrSet K) (item : K) → IsWellFormed s → IsWellFormed (remove_item s item)
  unfolding remove_item
  remove_item-IsWellFormed s item w = ground (arith, remove-IsSorted item s.entries w)

  -- An addition makes its tag live, unless a removal has met it, and changes no other.
  pub live-add_item :
      (s : OrSet K) (item q : K) (tag t : ℕ)
      → live (add_item s item tag) q t
        ≡ (((o.beq item q && nat_ord.beq tag t) || tagged s q t) && is_live s.removed t)
  unfolding live add_item
  live-add_item s item q tag t = ground (
    arith,
    o.beq_iff item q,
    lookup-insert item q (add tag (tags_of s item)) s.entries,
    contains-add tag t (tags_of s item),
  )

  -- A removal of an item ends exactly the additions whose tag the set knows of this item.
  pub live-remove_item :
      (s : OrSet K) (item q : K) (t : ℕ)
      → live (remove_item s item) q t ≡ (live s q t && not (tagged s item t))
  unfolding live remove_item lookup
  live-remove_item s item q t = elim (Option-cases (lookup item s.entries)) [
    | inl e ↦ ground (arith, e)
    | inr (tags, e) ↦ ground (
      arith,
      e,
      o.beq_iff item q,
      lookup-remove item q s.entries,
      contains-union t s.removed tags,
    )
  ]

  pub removed-remove_item :
      (s : OrSet K) (item : K) (t : ℕ)
      → Dict.contains t (remove_item s item).removed
        ≡ (Dict.contains t s.removed || tagged s item t)
  unfolding tagged remove_item lookup
  removed-remove_item s item t = elim (Option-cases (lookup item s.entries)) [
    | inl e ↦ ground (arith, e)
    | inr (tags, e) ↦ ground (arith, e, contains-union t s.removed tags)
  ]

  -- Merging in either order, in any grouping, or twice gives the same view.
  pub merge_comm :
      (a b : OrSet K) → IsWellFormed a → IsWellFormed b → SameView (merge a b) (merge b a)
  merge_comm a b wa wb = record {
    lives = λ item t. ground (arith, live-merge a b item t wa wb, live-merge b a item t wb wa);
    removes = λ t. ground (arith, removed-merge a b t, removed-merge b a t);
  }

  pub merge_idem : (a : OrSet K) → IsWellFormed a → SameView (merge a a) a
  unfolding live
  merge_idem a w = record {
    lives = λ item t. ground (arith, live-merge a a item t w w);
    removes = λ t. ground (arith, removed-merge a a t);
  }

  live-merge_left :
      (a b c : OrSet K) (item : K) (t : ℕ)
      → IsWellFormed a
      → IsWellFormed b
      → IsWellFormed c
      → live (merge (merge a b) c) item t ≡ (
          (tagged a item t || tagged b item t || tagged c item t)
          && not
              (Dict.contains t a.removed || Dict.contains t b.removed || Dict.contains t c.removed))
  unfolding live
  live-merge_left a b c item t wa wb wc = ground (
    arith,
    live-merge (merge a b) c item t (merge-IsWellFormed a b wa) wc,
    live-merge a b item t wa wb,
    removed-merge a b t,
  )

  live-merge_right :
      (a b c : OrSet K) (item : K) (t : ℕ)
      → IsWellFormed a
      → IsWellFormed b
      → IsWellFormed c
      → live (merge a (merge b c)) item t ≡ (
          (tagged a item t || tagged b item t || tagged c item t)
          && not
              (Dict.contains t a.removed || Dict.contains t b.removed || Dict.contains t c.removed))
  unfolding live
  live-merge_right a b c item t wa wb wc = ground (
    arith,
    live-merge a (merge b c) item t wa (merge-IsWellFormed b c wb),
    live-merge b c item t wb wc,
    removed-merge b c t,
  )

  pub merge_assoc :
      (a b c : OrSet K)
      → IsWellFormed a
      → IsWellFormed b
      → IsWellFormed c
      → SameView (merge (merge a b) c) (merge a (merge b c))
  merge_assoc a b c wa wb wc = record {
    lives = λ item t.
        live-merge_left a b c item t wa wb wc ∙ sym (live-merge_right a b c item t wa wb wc);
    removes = λ t. ground (
      arith,
      removed-merge (merge a b) c t,
      removed-merge a b t,
      removed-merge a (merge b c) t,
      removed-merge b c t,
    );
  }

  -- If a replica of a well-formed set that has not seen a fresh tag removes an item, and another
  -- replica adds the item with that tag, the item is in the merge of both.
  pub add_wins :
      (a b : OrSet K) (item : K) (tag : ℕ)
      → IsWellFormed a
      → IsWellFormed b
      → tagged a item tag ≡ false
      → Dict.contains tag a.removed ≡ false
      → Dict.contains tag b.removed ≡ false
      → contains (merge (remove_item a item) (add_item b item tag)) item ≡ true
  unfolding tagged add_item
  add_wins a b item tag wa wb unseen fresh_a fresh_b =
      let added : live (merge (remove_item a item) (add_item b item tag)) item tag ≡ true = ground (
        arith,
        live-merge (remove_item a item) (add_item b item tag) item tag
            (remove_item-IsWellFormed a item wa) (add_item-IsWellFormed b item tag wb),
        removed-remove_item a item tag,
        lookup-insert item item (add tag (tags_of b item)) b.entries,
        contains-add tag tag (tags_of b item),
        beq_refl item,
      ) in
      (contains-live (merge (remove_item a item) (add_item b item tag)) item).1 (tag, added)
