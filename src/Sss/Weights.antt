-- ===== src/Sss/Weights.antt =====
-- src/sss.rs: the polynomials of `poly_eval` and the weights that `reconstruct` divides out.
use ess_p2p_rs.Shared.{
  ℕ, suc, ◌+◌, ◌≡◌, ◌≢◌, ◌<◌, ◌==◌, refl, sym, ap, ◌∙◌, List, [], ◌∷◌, ◌++◌, map, length, All,
  arith, false,
}
use ess_p2p_rs.Sss.{ok, gf_add, gf_sub, gf_mul, gf_div}
use ess_p2p_rs.Sss.Field.{gf_div-gf_mul}
use ess_p2p_rs.Sss.Lagrange.{factor, weight}
use ess_p2p_rs.Sss.Powers.{pow, poly}
use ess_p2p_rs.Sss.CharTwo.{◌+F◌, ◌*F◌, mul_apart, add_apart, quotient_step, nil_add, one_mul}
use ess_p2p_rs.Sss.Bytes.{Byte, byte, byte_field, positive, one_apart}
use ess_p2p_rs.Sss.Shares.{poly_eval_loop, poly_eval, Shard, basis_loop}

pub byte_id : (n : ℕ) → n < 256 → (byte n).0 ≡ n
byte_id n small = omega (arith, small)

-- The rounds of `poly_eval` add up the powers of the polynomial.
poly_eval_loop-poly :
    (cs : List ℕ) (x result : Byte) (r : ℕ)
    → All (λ c. c < 256) cs
    → poly_eval_loop cs x.0 result.0 (pow x r).0 ≡ (result +F poly (map byte cs) r x).0
unfolding poly_eval_loop
poly_eval_loop-poly [] x result r small = ap (λ (b : Byte). b.0) (sym (byte_field.add-nil result))
poly_eval_loop-poly (c ∷ cs) x result r small =
    let step = byte c *F pow x r in
    let later = poly_eval_loop-poly cs x (result +F step) (suc r) small.1 in
    let here : gf_add result.0 (gf_mul c (pow x r).0) ≡ (result +F step).0 =
      ap (λ n. gf_add result.0 (gf_mul n (pow x r).0)) (sym (byte_id c small.0)) in
    ap (λ n. poly_eval_loop cs x.0 n (pow x (suc r)).0) here
    ∙ (later
        ∙ ap (λ (b : Byte). b.0) (byte_field.add_assoc result step (poly (map byte cs) (suc r) x)))

pub poly_eval-poly :
    (cs : List ℕ) (x : Byte) → All (λ c. c < 256) cs → poly_eval cs x.0 ≡ (poly (map byte cs) 0 x).0
poly_eval-poly cs x small =
    poly_eval_loop-poly cs x byte_field.nil 0 small
    ∙ ap (λ (b : Byte). b.0) (nil_add (poly (map byte cs) 0 x))

-- The products of `basis_loop` over the shards that it does not skip.
unfoldable products : ℕ → List Shard → ℕ → ℕ → ℕ × ℕ
products xi [] n d = (n, d)
products xi (s ∷ shards) n d = products xi shards (gf_mul n s.x) (gf_mul d (gf_sub xi s.x))

basis_loop_after :
    (i xi j : ℕ) (shards : List Shard) (n d : ℕ)
    → i < j
    → basis_loop i xi j shards n d ≡ products xi shards n d
unfolding basis_loop products
basis_loop_after i xi j [] n d later = refl
basis_loop_after i xi j (s ∷ shards) n d later = ground (
  arith,
  basis_loop_after i xi (suc j) shards (gf_mul n s.x) (gf_mul d (gf_sub xi s.x))
      (omega (arith, later)),
)

basis_loop-append :
    (xi j : ℕ) (seen : List Shard) (s : Shard) (rest : List Shard) (n d : ℕ)
    → basis_loop (j + length seen) xi j (seen ++ s ∷ rest) n d ≡ products xi (seen ++ rest) n d
unfolding basis_loop products
basis_loop-append xi j [] s rest n d =
    ground (arith, basis_loop_after j xi (suc j) rest n d (omega arith))
basis_loop-append xi j (z ∷ seen) s rest n d =
    let e : j + suc (length seen) ≡ suc j + length seen = omega arith in
    let h = basis_loop-append xi (suc j) seen s rest (gf_mul n z.x) (gf_mul d (gf_sub xi z.x)) in
    let apart : ((j + suc (length seen)) == j) ≡ false = ground arith in
    rw apart (
      ap (λ i. basis_loop i xi (suc j) (seen ++ s ∷ rest) (gf_mul n z.x) (gf_mul d (gf_sub xi z.x)))
        e
      ∙ h)

abbrev pub point : Shard → Byte
point s = byte s.x

abbrev pub points : List Shard → List Byte
points [] = []
points (s ∷ shards) = point s ∷ points shards

pub points-append : (ss ts : List Shard) → points (ss ++ ts) ≡ points ss ++ points ts
points-append [] ts = refl
points-append (s ∷ ss) ts = ap (λ l. point s ∷ l) (points-append ss ts)

-- The quotient of the products is the weight of Lagrange's basis.
products-weight :
    (x : Byte) (shards : List Shard) (w d : Byte)
    → d ≢ byte_field.nil
    → All (λ s. s.x < 256) shards
    → All (λ z. x ≢ z) (points shards)
    → (e : Byte) × (e ≢ byte_field.nil)
      × (products x.0 shards (w *F d).0 d.0 ≡ (((w *F weight x (points shards)) *F e).0, e.0))
unfolding products weight
products-weight x [] w d hd small apart =
    (d, hd, ap (λ (b : Byte). ((b *F d).0, d.0)) (sym (byte_field.mul-one w)))
products-weight x (s ∷ shards) w d hd small apart =
    let z = point s in
    let g = x +F z in
    let hg = add_apart x z apart.0 in
    let id = byte_id s.x small.0 in
    let ih =
      products-weight x shards (w *F factor x z) (d *F g) (mul_apart d g hd hg) small.1 apart.1 in
    let num : gf_mul (w *F d).0 s.x ≡ ((w *F factor x z) *F (d *F g)).0 =
      ap (gf_mul (w *F d).0) (sym id) ∙ ap (λ (b : Byte). b.0) (sym (quotient_step w d z g hg)) in
    let den : gf_mul d.0 (gf_sub x.0 s.x) ≡ (d *F g).0 =
      ap (λ n. gf_mul d.0 (gf_sub x.0 n)) (sym id) in
    (
      ih.0,
      ih.1,
      rw (num, den)
          (ih.2
            ∙ ap (λ (b : Byte). ((b *F ih.0).0, ih.0.0))
                (byte_field.mul_assoc w (factor x z) (weight x (points shards)))),
    )

-- The basis of a shard that the code divides out.
pub basis-weight :
    (s : Shard) (seen rest : List Shard)
    → All (λ s. s.x < 256) (seen ++ rest)
    → s.x < 256
    → All (λ z. point s ≢ z) (points (seen ++ rest))
    → gf_div
        (basis_loop (length seen) s.x 0 (seen ++ s ∷ rest) 1 1).0
        (basis_loop (length seen) s.x 0 (seen ++ s ∷ rest) 1 1).1
      ≡ ok (weight (point s) (points (seen ++ rest))).0
unfolding basis_loop
basis-weight s seen rest small own apart =
    let x = point s in
    let id = byte_id s.x own in
    let h = products-weight x (seen ++ rest) byte_field.one byte_field.one one_apart small apart in
    let w = weight x (points (seen ++ rest)) in
    let unit : (byte_field.one *F byte_field.one) ≡ byte_field.one = one_mul byte_field.one in
    let parts : basis_loop (length seen) s.x 0 (seen ++ s ∷ rest) 1 1 ≡ ((w *F h.0).0, h.0.0) =
      ap (λ n. basis_loop n s.x 0 (seen ++ s ∷ rest) 1 1) (omega arith)
      ∙ (basis_loop-append s.x 0 seen s rest 1 1
          ∙ (ap (λ n. products n (seen ++ rest) 1 1) (sym id)
              ∙ (ap (λ (b : Byte). products x.0 (seen ++ rest) b.0 1) (sym unit)
                  ∙ (h.2 ∙ ap (λ (b : Byte). ((b *F h.0).0, h.0.0)) (one_mul w))))) in
    rw parts (gf_div-gf_mul w.0 h.0.0 w.1 (positive h.0 h.1) h.0.1)
