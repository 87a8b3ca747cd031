-- ===== src/Sss/Field.antt =====
-- src/sss.rs: the tables of powers and logarithms, and the laws of the products that they give.
use ess_p2p_rs.Shared.{
  ℕ, zero, suc, ◌+◌, ◌-◌, ◌*◌, ◌/◌, ◌%◌, ◌^◌, ◌≡◌, ◌≤◌, ◌<◌, refl, Bool, true, ◌&&◌, ◌||◌, inl, inr,
  ltb, ◌==◌, arith, if◌then◌else◌, Bool-cases,
}
use Prim.Native.Nat.{bit_xor}
use ess_p2p_rs.Sss.{
  ok, raw_mul_loop, gf256_raw_mul, powers, places, generate, exp_at, log_at, gf_mul, gf_div,
}

unfoldable pub all_below : ℕ → (ℕ → Bool) → Bool
all_below zero p = true
all_below (suc n) p = p n && all_below n p

pub all_below_sound : (n : ℕ) (p : ℕ → Bool) (i : ℕ) → all_below n p ≡ true → i < n → p i ≡ true
unfolding all_below
all_below_sound zero p i h le = ground arith
all_below_sound (suc n) p i h le = elim (Bool-cases (n == i)) [
  | inl same ↦ let e : n ≡ i = ground arith in ground (arith, e, h)
  | inr other ↦ all_below_sound n p i (ground arith) (ground arith)
]

logs_checked : all_below 256 (λ a. a == 0 || (ltb (log_at a) 255 && exp_at (log_at a) == a)) ≡ true
unfolding all_below generate powers places gf256_raw_mul
logs_checked = refl

powers_checked :
    all_below 255 (λ i. (ltb 0 (exp_at i) && ltb (exp_at i) 256) && log_at (exp_at i) == i) ≡ true
unfolding all_below generate powers places gf256_raw_mul
powers_checked = refl

-- A nonzero element is the power of its logarithm.
pub exp_at-log_at : (a : ℕ) → 0 < a → a < 256 → (log_at a < 255) × (exp_at (log_at a) ≡ a)
exp_at-log_at a pos small =
    let h =
      all_below_sound 256 (λ a. a == 0 || (ltb (log_at a) 255 && exp_at (log_at a) == a)) a
        logs_checked small in
    ground (arith, h, pos)

pub log_at-exp_at : (i : ℕ) → i < 255 → (0 < exp_at i) × (exp_at i < 256) × (log_at (exp_at i) ≡ i)
log_at-exp_at i small =
    let h =
      all_below_sound 255 (λ i. (ltb 0 (exp_at i) && ltb (exp_at i) 256) && log_at (exp_at i) == i)
        i powers_checked small in
    ground (arith, h)

pub gf_mul_powers : (a b : ℕ) → 0 < a → 0 < b → gf_mul a b ≡ exp_at ((log_at a + log_at b) % 255)
unfolding gf_mul
gf_mul_powers a b pa pb = ground (arith, pa, pb)

-- A product of nonzero elements is nonzero, and the logarithms add up.
pub gf_mul_nonzero :
    (a b : ℕ)
    → 0 < a
    → 0 < b
    → (0 < gf_mul a b) × (gf_mul a b < 256) × (log_at (gf_mul a b) ≡ (log_at a + log_at b) % 255)
gf_mul_nonzero a b pa pb =
    let e = gf_mul_powers a b pa pb in
    let p = log_at-exp_at ((log_at a + log_at b) % 255) (omega arith) in ground (arith, e, p)

pub gf_mul_left_zero : (b : ℕ) → gf_mul 0 b ≡ 0
unfolding gf_mul
gf_mul_left_zero b = refl

pub gf_mul_right_zero : (a : ℕ) → gf_mul a 0 ≡ 0
unfolding gf_mul
gf_mul_right_zero a = ground arith

pub gf_mul_comm : (a b : ℕ) → gf_mul a b ≡ gf_mul b a
unfolding gf_mul
gf_mul_comm a b =
    let e : log_at a + log_at b ≡ log_at b + log_at a = omega arith in ground (arith, e)

pub gf_mul_assoc : (a b c : ℕ) → gf_mul (gf_mul a b) c ≡ gf_mul a (gf_mul b c)
gf_mul_assoc zero b c =
    ground (arith, gf_mul_left_zero b, gf_mul_left_zero c, gf_mul_left_zero (gf_mul b c))
gf_mul_assoc (suc a) zero c = ground (arith, gf_mul_right_zero (suc a), gf_mul_left_zero c)
gf_mul_assoc (suc a) (suc b) zero = ground (
  arith,
  gf_mul_right_zero (gf_mul (suc a) (suc b)),
  gf_mul_right_zero (suc b),
  gf_mul_right_zero (suc a),
)
gf_mul_assoc (suc a) (suc b) (suc c) =
    let ab = gf_mul_nonzero (suc a) (suc b) (omega arith) (omega arith) in
    let bc = gf_mul_nonzero (suc b) (suc c) (omega arith) (omega arith) in
    let l = gf_mul_powers (gf_mul (suc a) (suc b)) (suc c) ab.0 (omega arith) in
    let r = gf_mul_powers (suc a) (gf_mul (suc b) (suc c)) (omega arith) bc.0 in
    let same : (log_at (gf_mul (suc a) (suc b)) + log_at (suc c)) % 255
        ≡ (log_at (suc a) + log_at (gf_mul (suc b) (suc c))) % 255 =
      omega (arith, ab.2, bc.2) in
    ground (arith, l, r, same)

pub log_at_checked : (log_at 1 == 0 && (log_at 3 == 1 && exp_at 0 == 1)) ≡ true
unfolding generate powers places gf256_raw_mul
log_at_checked = refl

pub gf_mul_one : (a : ℕ) → a < 256 → gf_mul a 1 ≡ a
gf_mul_one zero small = gf_mul_left_zero 1
gf_mul_one (suc a) small =
    let la = exp_at-log_at (suc a) (omega arith) small in
    let l1 : log_at 1 ≡ 0 = ground (arith, log_at_checked) in
    let e : (log_at (suc a) + log_at 1) % 255 ≡ log_at (suc a) = omega (arith, la.0, l1) in
    ground (arith, gf_mul_powers (suc a) 1 (omega arith) (omega arith), e, la)

-- A byte that is multiplied by a nonzero byte and divided by it again is what it was.
pub gf_div-gf_mul : (a b : ℕ) → a < 256 → 0 < b → b < 256 → gf_div (gf_mul a b) b ≡ ok a
unfolding gf_div
gf_div-gf_mul zero b sa pb sb = ground (arith, gf_mul_left_zero b)
gf_div-gf_mul (suc a) b sa pb sb =
    let ab = gf_mul_nonzero (suc a) b (omega arith) pb in
    let la = exp_at-log_at (suc a) (omega arith) sa in
    let lb = exp_at-log_at b pb sb in
    let e : ((log_at (gf_mul (suc a) b) + 255) - log_at b) % 255 ≡ log_at (suc a) =
      omega (arith, ab.2, la.0, lb.0) in
    ground (arith, ab, la, lb, e)

-- The loop of the raw product ends within as many rounds as its multiplier has bits: any more
-- rounds that it is allowed change nothing.
pub raw_mul_loop_enough :
    (n fuel result a b : ℕ)
    → n ≤ fuel
    → b < 2 ^ n
    → raw_mul_loop fuel result a b ≡ raw_mul_loop n result a b
unfolding raw_mul_loop
raw_mul_loop_enough zero zero result a b le h = refl
raw_mul_loop_enough zero (suc fuel) result a b le h = ground arith
raw_mul_loop_enough (suc n) zero result a b le h = ground arith
raw_mul_loop_enough (suc n) (suc fuel) result a b le h =
    let added = if b % 2 == 1 then bit_xor result a else result in
    let shifted = (a * 2) % 2 ^ 16 in
    let reduced = if (shifted / 256) % 2 == 0 then shifted else bit_xor shifted 0x11b in
    let half : b / 2 < 2 ^ n = omega arith in
    ground (arith, raw_mul_loop_enough n fuel added reduced (b / 2) (omega arith) half)
