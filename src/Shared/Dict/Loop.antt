-- ===== src/Shared/Dict/Loop.antt =====
-- A loop over the entries of one map that writes another, and the map that it leaves.
use mathlib.Core.Path.{◌≡◌, refl}
use mathlib.Core.Logic.{inl, inr}
use mathlib.Core.List.{[], ◌∷◌}
use mathlib.Core.Option.{Option, none, some}
use native.Mathlib.Omega.{arith}
use ess_p2p_rs.Shared.Tests.{if◌then◌else◌, Bool-cases}
use ess_p2p_rs.Shared.Order.{Ord}
use ess_p2p_rs.Shared.Dict.Base.{Dict, lookup}
use ess_p2p_rs.Shared.Dict.Sorted.{IsSorted, lookup-Above}

-- `for (k, v) in &other { … self … }`
unfoldable pub for_entries {ℓ κ μ} :
    {K : Type ℓ} {B : Type κ} {S : Type μ} → (S → K → B → S) → S → Dict K B → S
for_entries step s [] = s
for_entries step s ((k, v) ∷ m) = for_entries step (step s k v) m

-- What the loop leaves at a key: its own entry, or that entry joined with the other's.
abbrev pub joined {κ μ} :
    {A : Type κ} {B : Type μ} → (Option A → B → A) → Option A → Option B → Option A
joined f own none = own
joined f own (some v) = some (f own v)

-- The body of the loop writes at its key alone.
abbrev pub WritesAt {ℓ κ μ} :
    {K : Type ℓ} {A : Type κ} {B : Type μ} ⦃o : Ord K⦄
    → (Option A → B → A)
    → (Dict K A → K → B → Dict K A)
    → Type (ℓ ⊔ κ ⊔ μ)
WritesAt {K = K} {A} {B} ⦃o⦄ f step =
    (s : Dict K A) (k q : K) (v : B)
    → lookup q (step s k v) ≡ (if o.beq k q then some (f (lookup k s) v) else lookup q s)

module _ {ℓ κ μ} {K : Type ℓ} {A : Type κ} {B : Type μ} ⦃o : Ord K⦄ (f : Option A → B → A)
    (step : Dict K A → K → B → Dict K A) where
  pub lookup-for_entries :
      WritesAt f step
      → (q : K) (s : Dict K A) (m : Dict K B) → IsSorted m
      → lookup q (for_entries step s m) ≡ joined f (lookup q s) (lookup q m)
  unfolding for_entries lookup
  lookup-for_entries law q s [] t = refl
  lookup-for_entries law q s ((k, v) ∷ m) t = elim (Bool-cases (o.beq k q)) [
    | inl same ↦
        let e : k ≡ q = (o.beq_iff k q).0 same in
        ground
          (arith, e, lookup-for_entries law q (step s k v) m t.1, law s k q v, lookup-Above k m t.0)
    | inr other ↦ ground (arith, lookup-for_entries law q (step s k v) m t.1, law s k q v)
  ]

module _ {ℓ κ μ} {K : Type ℓ} {B : Type κ} {S : Type μ} (P : S → Type 0)
    (step : S → K → B → S) where
  -- What the body of the loop keeps, the loop keeps.
  pub for_entries_inv :
      ((s : S) (k : K) (v : B) → P s → P (step s k v))
      → (s : S) (m : Dict K B) → P s
      → P (for_entries step s m)
  unfolding for_entries
  for_entries_inv h s [] p = p
  for_entries_inv h s ((k, v) ∷ m) p = for_entries_inv h (step s k v) m (h s k v p)
