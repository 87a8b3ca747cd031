-- ===== src/Shared/Dict/Sorted.antt =====
-- The order that a map keeps, and what it gives: `lookup` tells two maps apart.
use mathlib.Core.Path.{◌≡◌, refl, sym}
use mathlib.Core.Logic.{inl, inr}
use mathlib.Core.Bool.{Bool, true}
use mathlib.Core.List.{[], ◌∷◌}
use mathlib.Core.Option.{Option, none, some}
use native.Mathlib.Omega.{arith}
use ess_p2p_rs.Shared.Tests.{if◌then◌else◌, Bool-cases}
use ess_p2p_rs.Shared.Order.{Ord}
use ess_p2p_rs.Shared.Dict.Base.{Dict, lookup, insert, or_insert, remove, retain}

abbrev pub keep {κ} : {V : Type κ} → (V → Bool) → Option V → Option V
keep p none = none
keep p (some v) = if p v then some v else none

module _ {ℓ κ} {K : Type ℓ} {V : Type κ} ⦃o : Ord K⦄ where
  -- Every key of the map is above `k`.
  abbrev pub Above : K → Dict K V → Type 0
  Above k [] = Unit {0}
  Above k ((j, v) ∷ m) = (o.blt k j ≡ true) × Above k m

  abbrev pub IsSorted : Dict K V → Type 0
  IsSorted [] = Unit {0}
  IsSorted ((k, v) ∷ m) = Above k m × IsSorted m

  pub Above-trans : (k j : K) (m : Dict K V) → o.blt k j ≡ true → Above j m → Above k m
  Above-trans k j [] h a = tt
  Above-trans k j ((i, v) ∷ m) h a = (o.blt_trans k j i h a.0, Above-trans k j m h a.1)

  pub lookup-Above : (k : K) (m : Dict K V) → Above k m → lookup k m ≡ none
  unfolding lookup
  lookup-Above k [] a = refl
  lookup-Above k ((j, v) ∷ m) a =
      ground (arith, o.beq_iff j k, o.blt_irrefl k, lookup-Above k m a.1)

  Above-insert :
      (i k : K) (v : V) (m : Dict K V) → o.blt i k ≡ true → Above i m → Above i (insert k v m)
  unfolding insert
  Above-insert i k v [] h a = (h, tt)
  Above-insert i k v ((j, w) ∷ m) h a = ground (arith, Above-insert i k v m h a.1)

  pub insert-IsSorted : (k : K) (v : V) (m : Dict K V) → IsSorted m → IsSorted (insert k v m)
  unfolding insert
  insert-IsSorted k v [] s = (tt, tt)
  insert-IsSorted k v ((j, w) ∷ m) s = ground (
    arith,
    o.blt_total j k,
    o.blt_total k j,
    o.beq_iff j k,
    o.beq_iff k j,
    Above-insert j k v m,
    Above-trans k j m,
    insert-IsSorted k v m s.1,
  )

  pub or_insert-IsSorted : (k : K) (v : V) (m : Dict K V) → IsSorted m → IsSorted (or_insert k v m)
  unfolding or_insert
  or_insert-IsSorted k v m s = ground (arith, insert-IsSorted k v m s)

  Above-retain : (i : K) (p : K → V → Bool) (m : Dict K V) → Above i m → Above i (retain p m)
  unfolding retain
  Above-retain i p [] a = tt
  Above-retain i p ((j, w) ∷ m) a = ground (arith, Above-retain i p m a.1)

  pub retain-IsSorted : (p : K → V → Bool) (m : Dict K V) → IsSorted m → IsSorted (retain p m)
  unfolding retain
  retain-IsSorted p [] s = tt
  retain-IsSorted p ((j, w) ∷ m) s = ground (arith, Above-retain j p m s.0, retain-IsSorted p m s.1)

  Above-remove : (i k : K) (m : Dict K V) → Above i m → Above i (remove k m)
  unfolding remove
  Above-remove i k [] a = tt
  Above-remove i k ((j, w) ∷ m) a = ground (arith, Above-remove i k m a.1)

  pub remove-IsSorted : (k : K) (m : Dict K V) → IsSorted m → IsSorted (remove k m)
  unfolding remove
  remove-IsSorted k [] s = tt
  remove-IsSorted k ((j, w) ∷ m) s = ground (arith, Above-remove j k m s.0, remove-IsSorted k m s.1)

  -- Each key occurs once, so that `retain` has the last word on it.
  pub lookup-retain :
      (q : K) (p : K → V → Bool) (m : Dict K V)
      → IsSorted m
      → lookup q (retain p m) ≡ keep (p q) (lookup q m)
  unfolding lookup retain
  lookup-retain q p [] s = refl
  lookup-retain q p ((j, v) ∷ m) s = elim (Bool-cases (o.beq j q)) [
    | inl same ↦
        let e : j ≡ q = (o.beq_iff j q).0 same in
        ground (arith, o.beq_iff j q, lookup-retain q p m s.1, lookup-Above j m s.0, e)
    | inr other ↦ ground (arith, lookup-retain q p m s.1)
  ]

  lookup_low :
      (k j : K) (w : V) (n : Dict K V) → o.blt k j ≡ true → Above j n → lookup k ((j, w) ∷ n) ≡ none
  unfolding lookup
  lookup_low k j w n h a =
      ground (arith, o.beq_iff j k, o.blt_irrefl k, lookup-Above k n (Above-trans k j n h a))

  lookup_nil : (k : K) → lookup {V = V} k [] ≡ none
  unfolding lookup
  lookup_nil k = refl

  pub lookup_head : (k : K) (v : V) (m : Dict K V) → lookup k ((k, v) ∷ m) ≡ some v
  unfolding lookup
  lookup_head k v m = ground (arith, o.beq_iff k k)

  lookup_tail :
      (k j q : K) (v w : V) (m n : Dict K V)
      → k ≡ j
      → Above k m
      → Above j n
      → lookup q ((k, v) ∷ m) ≡ lookup q ((j, w) ∷ n)
      → lookup q m ≡ lookup q n
  unfolding lookup
  lookup_tail k j q v w m n e a b h = elim (Bool-cases (o.beq k q)) [
    | inl same ↦
        let f : k ≡ q = (o.beq_iff k q).0 same in
        ground (arith, lookup-Above k m a, lookup-Above j n b, f)
    | inr other ↦ ground (arith, o.beq_iff k q, o.beq_iff j q)
  ]

  head_clash :
      (k j : K) (v w : V) (m n : Dict K V)
      → o.blt k j ≡ true
      → Above j n
      → lookup k ((k, v) ∷ m) ≡ lookup k ((j, w) ∷ n)
      → ⊥
  head_clash k j v w m n lt b h = ground (arith, lookup_head k v m, lookup_low k j w n lt b)

  -- What stands in the rest of a map stands in the map.
  pub lookup_rest :
      (k q : K) (v w : V) (m : Dict K V)
      → Above k m
      → lookup q m ≡ some w
      → lookup q ((k, v) ∷ m) ≡ some w
  unfolding lookup
  lookup_rest k q v w m a h = ground (arith, o.beq_iff k q, lookup-Above k m a)

  -- Two maps that read alike are equal.
  pub Dict-ext :
      (m n : Dict K V) → IsSorted m → IsSorted n → ((q : K) → lookup q m ≡ lookup q n) → m ≡ n
  Dict-ext [] [] s t h = refl
  Dict-ext [] ((j, w) ∷ n) s t h = ground (arith, h j, lookup_head j w n, lookup_nil j)
  Dict-ext ((k, v) ∷ m) [] s t h = ground (arith, h k, lookup_head k v m, lookup_nil k)
  Dict-ext ((k, v) ∷ m) ((j, w) ∷ n) s t h = elim (Bool-cases (o.beq k j)) [
    | inl same ↦
        let e : k ≡ j = (o.beq_iff k j).0 same in
        let tails : m ≡ n = Dict-ext m n s.1 t.1 (λ q. lookup_tail k j q v w m n e s.0 t.0 (h q)) in
        ground (arith, h k, lookup_head k v m, lookup_head j w n, e, tails)
    | inr other ↦ elim (Bool-cases (o.blt k j)) [
      | inl lt ↦ absurd (head_clash k j v w m n lt t.0 (h k))
      | inr ge ↦ absurd (head_clash j k w v n m (o.blt_total k j other ge) s.0 (sym (h j)))
    ]
  ]
