-- ===== src/Shared/Dict/Base.antt =====
-- The operations of a map and their laws under `lookup`, which need no order.
use mathlib.Core.Path.{◌≡◌, refl}
use mathlib.Core.Bool.{Bool}
use mathlib.Core.List.{List, [], ◌∷◌}
use mathlib.Core.Option.{Option, none, some}
use native.Mathlib.Omega.{arith}
use ess_p2p_rs.Shared.Tests.{if◌then◌else◌, is_some, unwrap_or}
use ess_p2p_rs.Shared.Order.{Ord, beq_refl}

abbrev pub Dict {ℓ κ} : Type ℓ → Type κ → Type (ℓ ⊔ κ)
Dict K V = List (K × V)

module _ {ℓ κ} {K : Type ℓ} {V : Type κ} ⦃o : Ord K⦄ where
  unfoldable pub lookup : K → Dict K V → Option V
  lookup k [] = none
  lookup k ((j, v) ∷ m) = if o.beq j k then some v else lookup k m

  abbrev pub contains_key : K → Dict K V → Bool
  contains_key k m = is_some (lookup k m)

  unfoldable pub insert : K → V → Dict K V → Dict K V
  insert k v [] = (k, v) ∷ []
  insert k v ((j, w) ∷ m) =
      let rest = (j, w) ∷ insert k v m in
      if o.beq j k then (j, v) ∷ m else if o.blt k j then (k, v) ∷ (j, w) ∷ m else rest

  unfoldable pub remove : K → Dict K V → Dict K V
  remove k [] = []
  remove k ((j, v) ∷ m) = let rest = remove k m in if o.beq j k then rest else (j, v) ∷ rest

  -- `m.retain(|k, v| p(k, v))`
  unfoldable pub retain : (K → V → Bool) → Dict K V → Dict K V
  retain p [] = []
  retain p ((j, v) ∷ m) = let rest = retain p m in if p j v then (j, v) ∷ rest else rest

  -- `m.entry(k).or_insert(v)`: an entry that is there stays.
  unfoldable pub or_insert : K → V → Dict K V → Dict K V
  or_insert k v m = elim (lookup k m) [ none ↦ insert k v m | some w ↦ m ]

  pub lookup-insert :
      (k q : K) (v : V) (m : Dict K V)
      → lookup q (insert k v m) ≡ (if o.beq k q then some v else lookup q m)
  unfolding lookup insert
  lookup-insert k q v [] = refl
  lookup-insert k q v ((j, w) ∷ m) =
      ground (arith, o.beq_iff j k, o.beq_iff j q, o.beq_iff k q, lookup-insert k q v m)

  pub lookup-insert_self : (k : K) (v : V) (m : Dict K V) → lookup k (insert k v m) ≡ some v
  lookup-insert_self k v m = ground (arith, lookup-insert k k v m, beq_refl k)

  pub lookup-or_insert :
      (k q : K) (v : V) (m : Dict K V)
      → lookup q (or_insert k v m)
        ≡ (if o.beq k q then some (unwrap_or (lookup k m) v) else lookup q m)
  unfolding or_insert
  lookup-or_insert k q v m = ground (arith, lookup-insert k q v m, o.beq_iff k q)

  pub lookup-remove :
      (k q : K) (m : Dict K V) → lookup q (remove k m) ≡ (if o.beq k q then none else lookup q m)
  unfolding lookup remove
  lookup-remove k q [] = ground arith
  lookup-remove k q ((j, w) ∷ m) =
      ground (arith, o.beq_iff j k, o.beq_iff j q, o.beq_iff k q, lookup-remove k q m)
