-- ===== src/Shared/Sort.antt =====
-- `Vec::sort`, `Vec::dedup` and `Vec::contains` over ordered values.
use mathlib.Core.Path.{◌≡◌, refl, ap, ◌∙◌}
use mathlib.Core.Logic.{inl, inr, ∥∥₁_elim}
use mathlib.Core.Bool.{Bool, true, false, ◌||◌}
use mathlib.Core.List.{List, [], ◌∷◌, Perm, Permᴰ}
use native.Mathlib.Omega.{arith}
use ess_p2p_rs.Shared.Tests.{if◌then◌else◌, Bool-cases}
use ess_p2p_rs.Shared.Order.{Ord, blt_asymm}

module _ {ℓ} {K : Type ℓ} ⦃o : Ord K⦄ where
  unfoldable pub has : K → List K → Bool
  has a [] = false
  has a (x ∷ xs) = o.beq x a || has a xs

  unfoldable pub place : K → List K → List K
  place a [] = a ∷ []
  place a (x ∷ xs) = let rest = x ∷ place a xs in if o.blt x a then rest else a ∷ x ∷ xs

  unfoldable pub sort : List K → List K
  unfolding place
  sort [] = []
  sort (x ∷ xs) = place x (sort xs)

  -- Only neighbours are compared.
  unfoldable pub dedup : List K → List K
  dedup [] = []
  dedup (x ∷ []) = x ∷ []
  dedup (x ∷ y ∷ r) = let rest = dedup (y ∷ r) in if o.beq x y then rest else x ∷ rest

  has-place : (a b : K) (xs : List K) → has a (place b xs) ≡ (o.beq b a || has a xs)
  unfolding has place
  has-place a b [] = refl
  has-place a b (x ∷ xs) = ground (arith, has-place a b xs)

  pub has-sort : (a : K) (xs : List K) → has a (sort xs) ≡ has a xs
  unfolding has sort
  has-sort a [] = refl
  has-sort a (x ∷ xs) = ground (arith, has-place a x (sort xs), has-sort a xs)

  pub has-dedup : (a : K) (xs : List K) → has a (dedup xs) ≡ has a xs
  unfolding has dedup
  has-dedup a [] = refl
  has-dedup a (x ∷ []) = refl
  has-dedup a (x ∷ y ∷ r) = ground (arith, has-dedup a (y ∷ r), o.beq_iff x y)

  -- No value is above the one after it.
  abbrev pub IsSorted : List K → Type 0
  IsSorted [] = Unit {0}
  IsSorted (x ∷ []) = Unit {0}
  IsSorted (x ∷ y ∷ r) = (o.blt y x ≡ false) × IsSorted (y ∷ r)

  -- Each value is below the one after it.
  abbrev pub IsStrict : List K → Type 0
  IsStrict [] = Unit {0}
  IsStrict (x ∷ []) = Unit {0}
  IsStrict (x ∷ y ∷ r) = (o.blt x y ≡ true) × IsStrict (y ∷ r)

  place-IsSorted : (a : K) (xs : List K) → IsSorted xs → IsSorted (place a xs)
  unfolding place
  place-IsSorted a [] s = tt
  place-IsSorted a (x ∷ []) s = ground (arith, blt_asymm x a)
  place-IsSorted a (x ∷ y ∷ r) s =
      ground (arith, blt_asymm x a, blt_asymm y a, place-IsSorted a (y ∷ r) s.1)

  sort-IsSorted : (xs : List K) → IsSorted (sort xs)
  unfolding sort
  sort-IsSorted [] = tt
  sort-IsSorted (x ∷ xs) = place-IsSorted x (sort xs) (sort-IsSorted xs)

  dedup_head : (y : K) (r : List K) → (t : List K) × (dedup (y ∷ r) ≡ y ∷ t)
  unfolding dedup
  dedup_head y [] = ([], refl)
  dedup_head y (z ∷ r) = elim (Bool-cases (o.beq y z)) [
    | inl same ↦ let (t, e) = dedup_head z r in (t, ground (arith, o.beq_iff y z))
    | inr differ ↦ (dedup (z ∷ r), ground arith)
  ]

  IsStrict-cons :
      (x y : K) (l t : List K) → o.blt x y ≡ true → l ≡ y ∷ t → IsStrict l → IsStrict (x ∷ l)
  IsStrict-cons x y [] t h e s = tt
  IsStrict-cons x y (z ∷ l) t h e s = (ground arith, s)

  dedup-IsStrict : (xs : List K) → IsSorted xs → IsStrict (dedup xs)
  unfolding dedup
  dedup-IsStrict [] s = tt
  dedup-IsStrict (x ∷ []) s = tt
  dedup-IsStrict (x ∷ y ∷ r) s = elim (Bool-cases (o.beq x y)) [
    | inl same ↦ rw same (dedup-IsStrict (y ∷ r) s.1)
    | inr differ ↦
        let (t, e) = dedup_head y r in
        rw differ (
          IsStrict-cons x y (dedup (y ∷ r)) t
            (ground (arith, o.blt_total y x, o.beq_iff x y, o.beq_iff y x)) e
            (dedup-IsStrict (y ∷ r) s.1))
  ]

  -- Sorting and then removing neighbours leaves each value once, in order.
  pub dedup-sort-IsStrict : (xs : List K) → IsStrict (dedup (sort xs))
  dedup-sort-IsStrict xs = dedup-IsStrict (sort xs) (sort-IsSorted xs)

  place_strict : (a x : K) (r : List K) → o.blt a x ≡ true → place a (x ∷ r) ≡ a ∷ x ∷ r
  unfolding place
  place_strict a x r h = ground (arith, blt_asymm a x)

  pub sort_strict : (xs : List K) → IsStrict xs → sort xs ≡ xs
  unfolding sort
  sort_strict [] s = refl
  sort_strict (x ∷ []) s = refl
  sort_strict (x ∷ y ∷ r) s = ap (place x) (sort_strict (y ∷ r) s.1) ∙ place_strict x y r s.0

  pub dedup_strict : (xs : List K) → IsStrict xs → dedup xs ≡ xs
  unfolding dedup
  dedup_strict [] s = refl
  dedup_strict (x ∷ []) s = refl
  dedup_strict (x ∷ y ∷ r) s =
      ground (arith, dedup_strict (y ∷ r) s.1, o.beq_iff x y, o.blt_irrefl x)

  place_comm : (a b : K) (xs : List K) → place a (place b xs) ≡ place b (place a xs)
  unfolding place
  place_comm a b [] =
      ground (arith, o.blt_total a b, o.blt_total b a, o.beq_iff a b, o.beq_iff b a, blt_asymm a b)
  place_comm a b (x ∷ xs) = ground (
    arith,
    place_comm a b xs,
    o.blt_total a b,
    o.blt_total b a,
    o.beq_iff a b,
    o.beq_iff b a,
    blt_asymm a b,
    o.blt_trans a x b,
    o.blt_trans b x a,
    o.blt_trans x a b,
    o.blt_trans x b a,
    o.blt_total x a,
    o.blt_total x b,
    o.beq_iff x a,
    o.beq_iff x b,
  )

  sort-permᴰ : {xs ys : List K} → Permᴰ xs ys → sort xs ≡ sort ys
  unfolding sort
  sort-permᴰ Permᴰ.nil = refl
  sort-permᴰ (Permᴰ.cons {a = a} e p) = rw e (ap (place _) (sort-permᴰ p))
  sort-permᴰ (Permᴰ.swap {a = a} {b = b} {l = l} e f) = rw (← e, ← f) (place_comm a b (sort l))
  sort-permᴰ (Permᴰ.trans p q) = sort-permᴰ p ∙ sort-permᴰ q

  -- Sorting forgets the order of what it sorts.
  pub sort-perm : IsSet K → {xs ys : List K} → Perm xs ys → sort xs ≡ sort ys
  sort-perm is_set p = ∥∥₁_elim p (hlevel is_set) sort-permᴰ
