-- ===== src/Sss/Distrib.antt =====
-- src/sss.rs: products distribute over sums. The product with 3 is checked on all bytes, and every
-- element is a power of 3.
use ess_p2p_rs.Shared.{
  ℕ, zero, suc, ◌+◌, ◌*◌, ◌%◌, ◌≡◌, ◌<◌, refl, sym, ◌∙◌, true, ◌&&◌, ltb, ◌==◌, arith,
  if◌then◌else◌,
}
use Prim.Native.Nat.{bit_xor}
use ess_p2p_rs.Sss.{gf256_raw_mul, powers, places, generate, exp_at, log_at, gf_add, gf_mul}
use ess_p2p_rs.Sss.Field.{
  all_below, all_below_sound, log_at_checked, exp_at-log_at, log_at-exp_at, gf_mul_powers,
  gf_mul_nonzero, gf_mul_left_zero, gf_mul_right_zero, gf_mul_comm, gf_mul_assoc, gf_mul_one,
}

-- The product with 3, from one shift.
tripled : ℕ → ℕ
tripled x =
    let shifted = x * 2 in bit_xor x (if ltb shifted 256 then shifted else bit_xor shifted 0x11b)

tripled_checked : all_below 256 (λ x. gf_mul 3 x == tripled x) ≡ true
unfolding all_below generate powers places gf256_raw_mul gf_mul tripled
tripled_checked = refl

linear_checked :
    all_below 256 (λ x.
      all_below 256
        (λ y. ltb (bit_xor x y) 256 && tripled (bit_xor x y) == bit_xor (tripled x) (tripled y)))
    ≡ true
unfolding all_below tripled
linear_checked = refl

pub xor_small : (x y : ℕ) → x < 256 → y < 256 → bit_xor x y < 256
xor_small x y sx sy =
    let row =
      all_below_sound 256
        (λ x.
          all_below 256 (λ y.
            ltb (bit_xor x y) 256 && tripled (bit_xor x y) == bit_xor (tripled x) (tripled y)))
        x linear_checked sx in
    let h =
      all_below_sound 256
        (λ y. ltb (bit_xor x y) 256 && tripled (bit_xor x y) == bit_xor (tripled x) (tripled y)) y
        row sy in
    ground (arith, h)

tripled-bit_xor :
    (x y : ℕ) → x < 256 → y < 256 → tripled (bit_xor x y) ≡ bit_xor (tripled x) (tripled y)
tripled-bit_xor x y sx sy =
    let row =
      all_below_sound 256
        (λ x.
          all_below 256 (λ y.
            ltb (bit_xor x y) 256 && tripled (bit_xor x y) == bit_xor (tripled x) (tripled y)))
        x linear_checked sx in
    let h =
      all_below_sound 256
        (λ y. ltb (bit_xor x y) 256 && tripled (bit_xor x y) == bit_xor (tripled x) (tripled y)) y
        row sy in
    ground (arith, h)

gf_mul_three : (x : ℕ) → x < 256 → gf_mul 3 x ≡ tripled x
gf_mul_three x sx =
    let h = all_below_sound 256 (λ x. gf_mul 3 x == tripled x) x tripled_checked sx in
    ground (arith, h)

three-bit_xor :
    (x y : ℕ) → x < 256 → y < 256 → gf_mul 3 (bit_xor x y) ≡ bit_xor (gf_mul 3 x) (gf_mul 3 y)
three-bit_xor x y sx sy =
    rw (gf_mul_three x sx, gf_mul_three y sy, gf_mul_three (bit_xor x y) (xor_small x y sx sy))
      (tripled-bit_xor x y sx sy)

pub gf_mul_small : (a b : ℕ) → gf_mul a b < 256
gf_mul_small zero b = ground (arith, gf_mul_left_zero b)
gf_mul_small (suc a) zero = ground (arith, gf_mul_right_zero (suc a))
gf_mul_small (suc a) (suc b) = (gf_mul_nonzero (suc a) (suc b) (omega arith) (omega arith)).1

-- The next power is the product with 3.
exp_at-suc : (i : ℕ) → suc i < 255 → exp_at (suc i) ≡ gf_mul 3 (exp_at i)
exp_at-suc i small =
    let l3 : log_at 3 ≡ 1 = ground (arith, log_at_checked) in
    let p = log_at-exp_at i (omega arith) in
    let e : (log_at 3 + log_at (exp_at i)) % 255 ≡ suc i = omega (arith, l3, p.2) in
    ground (arith, gf_mul_powers 3 (exp_at i) (omega arith) p.0, e)

power-bit_xor :
    (i x y : ℕ)
    → i < 255
    → x < 256
    → y < 256
    → gf_mul (exp_at i) (bit_xor x y) ≡ bit_xor (gf_mul (exp_at i) x) (gf_mul (exp_at i) y)
power-bit_xor zero x y si sx sy =
    let one : exp_at 0 ≡ 1 = ground (arith, log_at_checked) in
    let id = λ (z : ℕ) (sz : z < 256). gf_mul_comm 1 z ∙ gf_mul_one z sz in
    rw (one, id x sx, id y sy, id (bit_xor x y) (xor_small x y sx sy)) refl
power-bit_xor (suc i) x y si sx sy =
    let p = exp_at i in
    rw
      (
        exp_at-suc i si,
        gf_mul_assoc 3 p x,
        gf_mul_assoc 3 p y,
        gf_mul_assoc 3 p (bit_xor x y),
        power-bit_xor i x y (omega arith) sx sy,
      )
      (three-bit_xor (gf_mul p x) (gf_mul p y) (gf_mul_small p x) (gf_mul_small p y))

-- The product by tables distributes over the sum by xor, for any three bytes.
pub gf_mul_distrib :
    (a x y : ℕ)
    → a < 256
    → x < 256
    → y < 256
    → gf_mul a (gf_add x y) ≡ gf_add (gf_mul a x) (gf_mul a y)
gf_mul_distrib zero x y sa sx sy =
    rw (gf_mul_left_zero x, gf_mul_left_zero y, gf_mul_left_zero (gf_add x y)) refl
gf_mul_distrib (suc a) x y sa sx sy =
    let la = exp_at-log_at (suc a) (omega arith) sa in
    let h = power-bit_xor (log_at (suc a)) x y la.0 sx sy in rw (sym la.1) h
