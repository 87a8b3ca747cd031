-- ===== src/Shared/Distinct.antt =====
-- Values that are all different, seen by sorting them and removing equal neighbours.
use Prim.Native.Nat.{suc, ◌≤◌}
use mathlib.Core.Path.{◌≡◌, refl, sym, ap, ◌∙◌}
use mathlib.Core.Logic.{◌≢◌, inl, inr}
use mathlib.Core.Bool.{true}
use mathlib.Core.List.{List, [], ◌∷◌}
use native.Mathlib.Omega.{arith}
use ess_p2p_rs.Shared.Tests.{Bool-cases}
use ess_p2p_rs.Shared.Lists.{length, All, AllDistinct}
use ess_p2p_rs.Shared.Order.{Ord, beq_of_blt}
use ess_p2p_rs.Shared.Sort.{place, sort, dedup, IsStrict, dedup-sort-IsStrict}

module _ {K : Type 0} ⦃o : Ord K⦄ where
  place-All : (P : K → Type 0) (a : K) (xs : List K) → P a → All P xs → All P (place a xs)
  unfolding place
  place-All P a [] p ps = (p, tt)
  place-All P a (x ∷ xs) p ps = elim (Bool-cases (o.blt x a)) [
    | inl above ↦ rw above (ps.0, place-All P a xs p ps.1)
    | inr below ↦ rw below (p, ps)
  ]

  sort-All : (P : K → Type 0) (xs : List K) → All P xs → All P (sort xs)
  unfolding sort
  sort-All P [] ps = tt
  sort-All P (x ∷ xs) ps = place-All P x (sort xs) ps.0 (sort-All P xs ps.1)

  All-place : (P : K → Type 0) (a : K) (xs : List K) → All P (place a xs) → P a × All P xs
  unfolding place
  All-place P a [] ps = ps
  All-place P a (x ∷ xs) ps = elim (Bool-cases (o.blt x a)) [
    | inl above ↦
        let qs : P x × All P (place a xs) = rw above at ps in
        let rest = All-place P a xs qs.1 in (rest.0, (qs.0, rest.1))
    | inr below ↦ rw below at ps
  ]

  All-sort : (P : K → Type 0) (xs : List K) → All P (sort xs) → All P xs
  unfolding sort
  All-sort P [] ps = tt
  All-sort P (x ∷ xs) ps =
      let parts = All-place P x (sort xs) ps in (parts.0, All-sort P xs parts.1)

  place-AllDistinct :
      (a : K) (xs : List K) → All (λ z. a ≢ z) xs → AllDistinct xs → AllDistinct (place a xs)
  unfolding place
  place-AllDistinct a [] ap d = (tt, tt)
  place-AllDistinct a (x ∷ xs) ap d = elim (Bool-cases (o.blt x a)) [
    | inl above ↦
        rw above
          (place-All (λ z. x ≢ z) a xs (λ e. ap.0 (sym e)) d.0, place-AllDistinct a xs ap.1 d.1)
    | inr below ↦ rw below (ap, d)
  ]

  sort-AllDistinct : (xs : List K) → AllDistinct xs → AllDistinct (sort xs)
  unfolding sort
  sort-AllDistinct [] d = tt
  sort-AllDistinct (x ∷ xs) d =
      place-AllDistinct x (sort xs) (sort-All (λ z. x ≢ z) xs d.0) (sort-AllDistinct xs d.1)

  dedup_apart : (xs : List K) → AllDistinct xs → dedup xs ≡ xs
  unfolding dedup
  dedup_apart [] d = refl
  dedup_apart (x ∷ []) d = refl
  dedup_apart (x ∷ y ∷ r) d = ground (arith, dedup_apart (y ∷ r) d.1, d.0.0, o.beq_iff x y)

  length-place : (a : K) (xs : List K) → length (place a xs) ≡ suc (length xs)
  unfolding place
  length-place a [] = refl
  length-place a (x ∷ xs) = ground (arith, length-place a xs)

  length-sort : (xs : List K) → length (sort xs) ≡ length xs
  unfolding sort
  length-sort [] = refl
  length-sort (x ∷ xs) = length-place x (sort xs) ∙ ap suc (length-sort xs)

  -- Nothing is removed from values that are all different.
  pub length-dedup-sort : (xs : List K) → AllDistinct xs → length (dedup (sort xs)) ≡ length xs
  length-dedup-sort xs d =
      ap length (dedup_apart (sort xs) (sort-AllDistinct xs d)) ∙ length-sort xs

  length-dedup : (xs : List K) → length (dedup xs) ≤ length xs
  unfolding dedup
  length-dedup [] = ground arith
  length-dedup (x ∷ []) = ground arith
  length-dedup (x ∷ y ∷ r) = ground (arith, length-dedup (y ∷ r))

  dedup_full : (xs : List K) → length (dedup xs) ≡ length xs → dedup xs ≡ xs
  unfolding dedup
  dedup_full [] e = refl
  dedup_full (x ∷ []) e = refl
  dedup_full (x ∷ y ∷ r) e = ground (arith, length-dedup (y ∷ r), dedup_full (y ∷ r))

  blt_apart : (a b : K) → o.blt a b ≡ true → a ≢ b
  blt_apart a b h e = ground (arith, beq_of_blt a b h, o.beq_iff a b)

  IsStrict-above : (x : K) (xs : List K) → IsStrict (x ∷ xs) → All (λ z. x ≢ z) xs
  IsStrict-above x [] s = tt
  IsStrict-above x (y ∷ []) s = (blt_apart x y s.0, tt)
  IsStrict-above x (y ∷ z ∷ r) s =
      (blt_apart x y s.0, IsStrict-above x (z ∷ r) (o.blt_trans x y z s.0 s.1.0, s.1.1))

  IsStrict-AllDistinct : (xs : List K) → IsStrict xs → AllDistinct xs
  IsStrict-AllDistinct [] s = tt
  IsStrict-AllDistinct (x ∷ []) s = (tt, tt)
  IsStrict-AllDistinct (x ∷ y ∷ r) s =
      (IsStrict-above x (y ∷ r) s, IsStrict-AllDistinct (y ∷ r) s.1)

  AllDistinct-place :
      (a : K) (xs : List K) → AllDistinct (place a xs) → All (λ z. a ≢ z) xs × AllDistinct xs
  unfolding place
  AllDistinct-place a [] d = d
  AllDistinct-place a (x ∷ xs) d = elim (Bool-cases (o.blt x a)) [
    | inl above ↦
        let e : All (λ z. x ≢ z) (place a xs) × AllDistinct (place a xs) = rw above at d in
        let later = AllDistinct-place a xs e.1 in
        let first = All-place (λ z. x ≢ z) a xs e.0 in
        (((λ q. first.0 (sym q)), later.0), (first.1, later.1))
    | inr below ↦ rw below at d
  ]

  AllDistinct-sort : (xs : List K) → AllDistinct (sort xs) → AllDistinct xs
  unfolding sort
  AllDistinct-sort [] d = tt
  AllDistinct-sort (x ∷ xs) d =
      let parts = AllDistinct-place x (sort xs) d in
      (All-sort (λ z. x ≢ z) xs parts.0, AllDistinct-sort xs parts.1)

  -- Values of which nothing is removed are all different.
  pub dedup-sort-AllDistinct : (xs : List K) → length (dedup (sort xs)) ≡ length xs → AllDistinct xs
  dedup-sort-AllDistinct xs e =
      let full = dedup_full (sort xs) (e ∙ sym (length-sort xs)) in
      AllDistinct-sort xs
        (rw full at (IsStrict-AllDistinct (dedup (sort xs)) (dedup-sort-IsStrict xs)))
