-- ===== src/Sss/Lagrange.antt =====
-- Interpolation at zero over a field of characteristic two, as src/sss.rs uses it: the sum of the
-- values of a polynomial at enough points, weighted by Lagrange's basis, is its constant term.
use ess_p2p_rs.Shared.{
  ◌≡◌, ◌≢◌, refl, sym, ap, ◌∙◌, List, [], ◌∷◌, ◌++◌, All, All-map, All-both, AllDistinct,
}
use ess_p2p_rs.Sss.CharTwo.{
  CharTwoField, ◌+F◌, ◌*F◌, add_left_comm, mul_left_comm, add_mul, one_mul, cancel_add, mul-nil,
  add_apart,
}

module _ {F : Type 0} ⦃k : CharTwoField F⦄ where
  -- The difference of two points, inverted.
  abbrev pub gap : F → F → F
  gap x z = k.inv (x +F z)

  pub mul-gap : (x z : F) → x ≢ z → (x +F z) *F gap x z ≡ k.one
  mul-gap x z apart = k.mul-inv (x +F z) (add_apart x z apart)

  gap_comm : (x z : F) → gap x z ≡ gap z x
  gap_comm x z = ap k.inv (k.add_comm x z)

  add_points : (x a b : F) → (x +F a) +F (x +F b) ≡ a +F b
  add_points x a b =
      k.add_assoc x a (x +F b) ∙ (ap (λ s. x +F s) (add_left_comm a x b) ∙ cancel_add x (a +F b))

  -- Two gaps from one point differ by the gap of the others.
  gap_add : (x a b : F) → x ≢ a → x ≢ b → gap x a +F gap x b ≡ (a +F b) *F (gap x a *F gap x b)
  gap_add x a b xa xb =
      let u = gap x a in
      let v = gap x b in
      let left : (x +F a) *F (u *F v) ≡ v =
        sym (k.mul_assoc (x +F a) u v) ∙ (ap (λ s. s *F v) (mul-gap x a xa) ∙ one_mul v) in
      let right : (x +F b) *F (u *F v) ≡ u =
        mul_left_comm (x +F b) u v ∙ (ap (λ s. u *F s) (mul-gap x b xb) ∙ k.mul-one u) in
      let split : (a +F b) *F (u *F v) ≡ v +F u =
        ap (λ s. s *F (u *F v)) (sym (add_points x a b))
        ∙ (add_mul (x +F a) (x +F b) (u *F v)
            ∙ (ap (λ s. s +F (x +F b) *F (u *F v)) left ∙ ap (λ s. v +F s) right)) in
      k.add_comm u v ∙ sym split

  -- The factor of another point in the basis of `x` at zero.
  abbrev pub factor : F → F → F
  factor x z = z *F gap x z

  unfoldable pub weight : F → List F → F
  weight x [] = k.one
  weight x (z ∷ zs) = factor x z *F weight x zs

  -- The weighted sum of `f` over the points, which are `seen` and then these.
  unfoldable pub interpolated : (F → F) → List F → List F → F
  unfolding weight
  interpolated f seen [] = k.nil
  interpolated f seen (x ∷ rest) =
      f x *F weight x (seen ++ rest) +F interpolated f (seen ++ x ∷ []) rest

  pub interpolated_front :
      (f : F → F) (a : F) (seen xs : List F)
      → interpolated f (a ∷ seen) xs ≡ interpolated (λ x. f x *F factor x a) seen xs
  unfolding interpolated weight
  interpolated_front f a seen [] = refl
  interpolated_front f a seen (x ∷ rest) =
      rw
        (
          interpolated_front f a (seen ++ x ∷ []) rest,
          k.mul_assoc (f x) (factor x a) (weight x (seen ++ rest)),
        )
        refl

  pub interpolated_eq :
      (f g : F → F) (seen xs : List F)
      → All (λ x. f x ≡ g x) xs
      → interpolated f seen xs ≡ interpolated g seen xs
  unfolding interpolated
  interpolated_eq f g seen [] h = refl
  interpolated_eq f g seen (x ∷ rest) h =
      rw (h.0, interpolated_eq f g (seen ++ x ∷ []) rest h.1) refl

  add_swap : (p q s t : F) → (p +F q) +F (s +F t) ≡ (p +F s) +F (q +F t)
  add_swap p q s t = simp (k.add_assoc, add_left_comm)

  pub interpolated_add :
      (f g : F → F) (seen xs : List F)
      → interpolated (λ x. f x +F g x) seen xs ≡ interpolated f seen xs +F interpolated g seen xs
  unfolding interpolated
  interpolated_add f g seen [] = sym (k.add-nil k.nil)
  interpolated_add f g seen (x ∷ rest) =
      let w = weight x (seen ++ rest) in
      let s = interpolated f (seen ++ x ∷ []) rest in
      let t = interpolated g (seen ++ x ∷ []) rest in
      rw (interpolated_add f g (seen ++ x ∷ []) rest, add_mul (f x) (g x) w)
        (add_swap (f x *F w) (g x *F w) s t)

  pub interpolated_mul :
      (c : F) (f : F → F) (seen xs : List F)
      → interpolated (λ x. c *F f x) seen xs ≡ c *F interpolated f seen xs
  unfolding interpolated
  interpolated_mul c f seen [] = sym (mul-nil c)
  interpolated_mul c f seen (x ∷ rest) =
      let w = weight x (seen ++ rest) in
      let s = interpolated f (seen ++ x ∷ []) rest in
      rw
        (
          interpolated_mul c f (seen ++ x ∷ []) rest,
          k.mul_assoc c (f x) w,
          k.mul-add c (f x *F w) s,
        )
        refl

  -- The factors of two points in a third are weighted by those of the two in each other.
  factor_split :
      (a b x : F)
      → a ≢ b
      → x ≢ a
      → x ≢ b
      → factor x a *F factor x b ≡ factor a b *F factor x a +F factor b a *F factor x b
  factor_split a b x ab xa xb =
      let g = gap a b in
      let u = gap x a in
      let v = gap x b in
      let joined : g *F (u +F v) ≡ u *F v =
        ap (λ s. g *F s) (gap_add x a b xa xb)
        ∙ (mul_left_comm g (a +F b) (u *F v)
            ∙ (sym (k.mul_assoc (a +F b) g (u *F v))
                ∙ (ap (λ s. s *F (u *F v)) (mul-gap a b ab) ∙ one_mul (u *F v)))) in
      let left : (a *F u) *F (b *F v) ≡ (a *F b) *F (u *F v) = simp (k.mul_assoc, mul_left_comm) in
      let right : (b *F g) *F (a *F u) +F (a *F g) *F (b *F v) ≡ (a *F b) *F (g *F u +F g *F v) =
        simp (k.mul-add, k.mul_assoc, mul_left_comm) in
      left
      ∙ (ap (λ s. (a *F b) *F s) (sym joined ∙ k.mul-add g u v)
          ∙ (sym right ∙ ap (λ h. (b *F g) *F (a *F u) +F (a *F h) *F (b *F v)) (gap_comm a b)))

  factors_one : (a b : F) → a ≢ b → factor a b +F factor b a ≡ k.one
  factors_one a b ab =
      ap (λ h. b *F gap a b +F a *F h) (gap_comm b a)
      ∙ (sym (add_mul b a (gap a b)) ∙ (ap (λ s. s *F gap a b) (k.add_comm b a) ∙ mul-gap a b ab))

  abbrev pub constant : F → F
  constant x = k.one

  -- Lagrange's basis sums to one.
  pub one_sum :
      (a : F) (xs : List F) → AllDistinct (a ∷ xs) → interpolated constant [] (a ∷ xs) ≡ k.one
  unfolding interpolated weight
  one_sum a [] d = k.add-nil (k.one *F k.one) ∙ k.mul-one k.one
  one_sum a (b ∷ ys) d =
      let p = factor a b in
      let q = factor b a in
      let wa = weight a ys in
      let wb = weight b ys in
      let sa = interpolated (λ x. k.one *F factor x a) [] ys in
      let sb = interpolated (λ x. k.one *F factor x b) [] ys in
      let ha : k.one *F wa +F sa ≡ k.one =
        ap (λ s. k.one *F wa +F s) (sym (interpolated_front constant a [] ys))
        ∙ one_sum a ys (d.0.1, d.1.1) in
      let hb : k.one *F wb +F sb ≡ k.one =
        ap (λ s. k.one *F wb +F s) (sym (interpolated_front constant b [] ys)) ∙ one_sum b ys d.1 in
      let apart = All-both (λ z. a ≢ z) (λ z. b ≢ z) ys d.0.1 d.1.0 in
      let pointwise =
        All-map _
          (λ x.
            (k.one *F factor x a) *F factor x b
            ≡ p *F (k.one *F factor x a) +F q *F (k.one *F factor x b))
          ys
          (λ (x : F) (h : (a ≢ x) × (b ≢ x)).
            ap (λ s. s *F factor x b) (one_mul (factor x a))
            ∙ (factor_split a b x d.0.0 (λ e. h.0 (sym e)) (λ e. h.1 (sym e))
                ∙ (ap (λ s. p *F s +F q *F factor x b) (sym (one_mul (factor x a)))
                    ∙ ap (λ s. p *F (k.one *F factor x a) +F q *F s) (sym (one_mul (factor x b))))))
          apart in
      let tail : interpolated constant (a ∷ b ∷ []) ys ≡ p *F sa +F q *F sb =
        interpolated_front constant a (b ∷ []) ys
        ∙ (interpolated_front (λ x. k.one *F factor x a) b [] ys
            ∙ (interpolated_eq (λ x. (k.one *F factor x a) *F factor x b)
                  (λ x. p *F (k.one *F factor x a) +F q *F (k.one *F factor x b)) [] ys pointwise
                ∙ (interpolated_add (λ x. p *F (k.one *F factor x a))
                      (λ x. q *F (k.one *F factor x b)) [] ys
                    ∙ rw
                        (
                          interpolated_mul p (λ x. k.one *F factor x a) [] ys,
                          interpolated_mul q (λ x. k.one *F factor x b) [] ys,
                        )
                        refl))) in
      rw (tail, mul_left_comm k.one p wa, mul_left_comm k.one q wb)
        (sym (k.add_assoc (p *F (k.one *F wa)) (q *F (k.one *F wb)) (p *F sa +F q *F sb))
          ∙ (add_swap (p *F (k.one *F wa)) (q *F (k.one *F wb)) (p *F sa) (q *F sb)
              ∙ rw
                  (
                    sym (k.mul-add p (k.one *F wa) sa),
                    sym (k.mul-add q (k.one *F wb) sb),
                    ha,
                    hb,
                    k.mul-one p,
                    k.mul-one q,
                  )
                  (factors_one a b d.0.0)))
