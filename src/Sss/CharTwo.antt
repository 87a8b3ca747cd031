-- ===== src/Sss/CharTwo.antt =====
-- A field of characteristic two, in which `reconstruct` of src/sss.rs works: sums, products and quotients.
use ess_p2p_rs.Shared.{◌≡◌, ◌≢◌, sym, ap, ◌∙◌}

-- The laws of such a field that interpolation needs.
pub record CharTwoField (F : Type 0) : Type 0 where
  pub nil : F
  pub one : F
  pub add : F → F → F
  pub mul : F → F → F
  pub inv : F → F
  pub add_assoc : (a b c : F) → add (add a b) c ≡ add a (add b c)
  pub add_comm : (a b : F) → add a b ≡ add b a
  pub add-nil : (a : F) → add a nil ≡ a
  pub add_self : (a : F) → add a a ≡ nil
  pub mul_assoc : (a b c : F) → mul (mul a b) c ≡ mul a (mul b c)
  pub mul_comm : (a b : F) → mul a b ≡ mul b a
  pub mul-one : (a : F) → mul a one ≡ a
  pub mul-add : (a b c : F) → mul a (add b c) ≡ add (mul a b) (mul a c)
  pub mul-inv : (a : F) → a ≢ nil → mul a (inv a) ≡ one

module _ {F : Type 0} ⦃k : CharTwoField F⦄ where
  infixl 65 ◌+F◌
  infixl 70 ◌*F◌
  abbrev pub ◌+F◌ : F → F → F
  a +F b = k.add a b

  abbrev pub ◌*F◌ : F → F → F
  a *F b = k.mul a b

  pub add_left_comm : (a b c : F) → a +F (b +F c) ≡ b +F (a +F c)
  add_left_comm a b c =
      sym (k.add_assoc a b c) ∙ (ap (λ s. s +F c) (k.add_comm a b) ∙ k.add_assoc b a c)

  pub mul_left_comm : (a b c : F) → a *F (b *F c) ≡ b *F (a *F c)
  mul_left_comm a b c =
      sym (k.mul_assoc a b c) ∙ (ap (λ s. s *F c) (k.mul_comm a b) ∙ k.mul_assoc b a c)

  pub add_mul : (a b c : F) → (a +F b) *F c ≡ a *F c +F b *F c
  add_mul a b c = simp (k.mul_comm, k.mul-add)

  pub nil_add : (a : F) → k.nil +F a ≡ a
  nil_add a = k.add_comm k.nil a ∙ k.add-nil a

  pub one_mul : (a : F) → k.one *F a ≡ a
  one_mul a = k.mul_comm k.one a ∙ k.mul-one a

  pub cancel_add : (a b : F) → a +F (a +F b) ≡ b
  cancel_add a b = sym (k.add_assoc a a b) ∙ (ap (λ s. s +F b) (k.add_self a) ∙ nil_add b)

  pub mul-nil : (a : F) → a *F k.nil ≡ k.nil
  mul-nil a = ap (λ s. a *F s) (sym (k.add_self a)) ∙ (k.mul-add a a a ∙ k.add_self (a *F a))

  pub add_apart : (a b : F) → a ≢ b → a +F b ≢ k.nil
  add_apart a b apart e = apart (sym (k.add-nil a) ∙ (ap (λ s. a +F s) (sym e) ∙ cancel_add a b))

  pub mul_apart : (a b : F) → a ≢ k.nil → b ≢ k.nil → a *F b ≢ k.nil
  mul_apart a b ha hb e = hb (
      sym (one_mul b)
      ∙ (ap (λ s. s *F b) (sym (k.mul-inv a ha) ∙ k.mul_comm a (k.inv a))
          ∙ (k.mul_assoc (k.inv a) a b ∙ (ap (λ s. k.inv a *F s) e ∙ mul-nil (k.inv a)))))

  -- One more factor in a quotient.
  pub quotient_step : (w d z g : F) → g ≢ k.nil → (w *F (z *F k.inv g)) *F (d *F g) ≡ (w *F d) *F z
  quotient_step w d z g hg =
      let h : (w *F (z *F k.inv g)) *F (d *F g) ≡ ((w *F d) *F z) *F (g *F k.inv g) =
        simp (k.mul_assoc, k.mul_comm, mul_left_comm) in
      h ∙ (ap (λ s. ((w *F d) *F z) *F s) (k.mul-inv g hg) ∙ k.mul-one ((w *F d) *F z))
