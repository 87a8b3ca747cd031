-- ===== src/Sss/Powers.antt =====
-- The sums of the powers in Lagrange's basis, by which src/sss.rs finds the constant term.
use ess_p2p_rs.Shared.{
  ℕ, zero, suc, ◌+◌, ◌≤◌, ◌<◌, ◌≡◌, ◌≢◌, refl, sym, ap, ◌∙◌, List, [], ◌∷◌, ◌++◌, length, All,
  All-map, AllDistinct, arith,
}
use ess_p2p_rs.Sss.CharTwo.{
  CharTwoField, ◌+F◌, ◌*F◌, add_left_comm, mul_left_comm, add_mul, cancel_add, mul-nil,
}
use ess_p2p_rs.Sss.Lagrange.{
  gap, mul-gap, factor, weight, interpolated, interpolated_front, interpolated_eq, interpolated_add,
  interpolated_mul, one_sum,
}

module _ {F : Type 0} ⦃k : CharTwoField F⦄ where
  -- `x_pow` of the loop over the coefficients, after so many rounds.
  abbrev pub pow : F → ℕ → F
  pow x zero = k.one
  pow x (suc r) = pow x r *F x

  pow-factor :
      (a x : F) (r : ℕ)
      → x ≢ a
      → pow x (suc r) *F factor x a ≡ a *F (pow x r +F pow x r *F factor x a)
  pow-factor a x r xa =
      let m = pow x r in
      let g = gap x a in
      let one : x *F g +F a *F g ≡ k.one = sym (add_mul x a g) ∙ mul-gap x a xa in
      let swap : x *F g ≡ k.one +F a *F g =
        sym (cancel_add (a *F g) (x *F g))
        ∙ (ap (λ s. a *F g +F s) (k.add_comm (a *F g) (x *F g) ∙ one)
            ∙ k.add_comm (a *F g) k.one) in
      let front : (m *F x) *F (a *F g) ≡ a *F (m *F (x *F g)) =
        simp (k.mul_assoc, k.mul_comm, mul_left_comm) in
      front ∙ (ap (λ s. a *F (m *F s)) swap ∙ rw (k.mul-add m k.one (a *F g), k.mul-one m) refl)

  power_step :
      (a : F) (xs : List F) (r : ℕ)
      → All (λ z. a ≢ z) xs
      → interpolated (λ x. pow x (suc r)) [] (a ∷ xs)
        ≡ a *F (interpolated (λ x. pow x r) [] xs +F interpolated (λ x. pow x r) [] (a ∷ xs))
  unfolding interpolated
  power_step a xs r d =
      let f = λ (x : F). pow x r in
      let w = weight a xs in
      let t = interpolated (λ x. f x *F factor x a) [] xs in
      let pointwise =
        All-map _ (λ x. pow x (suc r) *F factor x a ≡ a *F (f x +F f x *F factor x a)) xs
          (λ (x : F) (h : a ≢ x). pow-factor a x r (λ e. h (sym e))) d in
      let tail : interpolated (λ x. pow x (suc r)) (a ∷ []) xs ≡ a *F (interpolated f [] xs +F t) =
        interpolated_front (λ x. pow x (suc r)) a [] xs
        ∙ (interpolated_eq (λ x. pow x (suc r) *F factor x a) (λ x. a *F (f x +F f x *F factor x a))
              [] xs pointwise
            ∙ (interpolated_mul a (λ x. f x +F f x *F factor x a) [] xs
                ∙ ap (λ s. a *F s) (interpolated_add f (λ x. f x *F factor x a) [] xs))) in
      let lead : (f a *F a) *F w ≡ a *F (f a *F w) = simp (k.mul_assoc, k.mul_comm) in
      rw
        (
          tail,
          interpolated_front f a [] xs,
          lead,
          sym (k.mul-add a (f a *F w) (interpolated f [] xs +F t)),
        )
        (ap (λ s. a *F s) (add_left_comm (f a *F w) (interpolated f [] xs) t))

  -- What the basis makes of a power.
  abbrev at_zero : ℕ → F
  at_zero zero = k.one
  at_zero (suc r) = k.nil

  pub power_sum :
      (r : ℕ) (xs : List F)
      → AllDistinct xs
      → r < length xs
      → interpolated (λ x. pow x r) [] xs ≡ at_zero r
  power_sum r [] d le = ground (arith, le)
  power_sum zero (a ∷ xs) d le = one_sum a xs d
  power_sum (suc r) (a ∷ xs) d le =
      let short = power_sum r xs d.1 (ground (arith, le)) in
      let long = power_sum r (a ∷ xs) d (ground (arith, le)) in
      power_step a xs r d.0 ∙ rw (short, long, k.add_self (at_zero r)) (mul-nil a)

  -- A polynomial from the power `r` up.
  abbrev pub poly : List F → ℕ → F → F
  poly [] r x = k.nil
  poly (c ∷ cs) r x = c *F pow x r +F poly cs (suc r) x

  interpolated_nil : (seen xs : List F) → interpolated (λ x. k.nil) seen xs ≡ k.nil
  unfolding interpolated
  interpolated_nil seen [] = refl
  interpolated_nil seen (x ∷ rest) =
      let w = weight x (seen ++ rest) in
      rw (interpolated_nil (seen ++ x ∷ []) rest, k.mul_comm k.nil w, mul-nil w) (k.add-nil k.nil)

  poly_rest :
      (cs : List F) (r : ℕ) (xs : List F)
      → AllDistinct xs
      → length cs + suc r ≤ length xs
      → interpolated (poly cs (suc r)) [] xs ≡ k.nil
  poly_rest [] r xs d le = interpolated_nil [] xs
  poly_rest (c ∷ cs) r xs d le =
      let here = power_sum (suc r) xs d (ground (arith, le)) in
      let later = poly_rest cs (suc r) xs d (ground (arith, le)) in
      interpolated_add (λ x. c *F pow x (suc r)) (poly cs (suc (suc r))) [] xs
      ∙ rw (interpolated_mul c (λ x. pow x (suc r)) [] xs, here, later, mul-nil c) (k.add-nil k.nil)

  -- As many points as coefficients determine the constant term.
  pub constant_term :
      (c : F) (cs xs : List F)
      → AllDistinct xs
      → length cs < length xs
      → interpolated (poly (c ∷ cs) 0) [] xs ≡ c
  constant_term c cs xs d le =
      let here = power_sum 0 xs d (ground (arith, le)) in
      let later = poly_rest cs 0 xs d (ground (arith, le)) in
      interpolated_add (λ x. c *F pow x 0) (poly cs 1) [] xs
      ∙ rw (interpolated_mul c (λ x. pow x 0) [] xs, here, later, k.mul-one c) (k.add-nil c)
