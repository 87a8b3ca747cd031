-- ===== src/Sss/Bytes.antt =====
-- src/sss.rs: the bytes, with the sum by xor and the product by tables, are a field of characteristic two.
use ess_p2p_rs.Shared.{
  ℕ, zero, suc, ◌+◌, ◌-◌, ◌*◌, ◌/◌, ◌%◌, ◌^◌, ◌≡◌, ◌≢◌, ◌<◌, refl, sym, ap, ◌∙◌, true, ◌==◌, arith,
  if◌then◌else◌,
}
use Prim.Native.Nat.{bit_xor}
use std.HLevel.{Σ_prop_path}
use native.Mathlib.Bridge.{le_prop}
use ess_p2p_rs.Sss.{exp_at, log_at, gf_add, gf_mul}
use ess_p2p_rs.Sss.Field.{
  all_below, all_below_sound, exp_at-log_at, log_at-exp_at, gf_mul_powers, log_at_checked,
  gf_mul_comm, gf_mul_assoc, gf_mul_one,
}
use ess_p2p_rs.Sss.Distrib.{xor_small, gf_mul_small, gf_mul_distrib}
use ess_p2p_rs.Sss.CharTwo.{CharTwoField}

-- The exclusive or of the last `n` digits, one digit at a time.
unfoldable pub digits_xor : ℕ → ℕ → ℕ → ℕ
digits_xor zero a b = 0
digits_xor (suc n) a b = digits_xor n (a / 2) (b / 2) * 2 + (a % 2 + b % 2) % 2

xor_checked : all_below 256 (λ a. all_below 256 (λ b. bit_xor a b == digits_xor 8 a b)) ≡ true
unfolding all_below digits_xor
xor_checked = refl

pub bit_xor_digits : (a b : ℕ) → a < 256 → b < 256 → bit_xor a b ≡ digits_xor 8 a b
bit_xor_digits a b sa sb =
    let row =
      all_below_sound 256 (λ a. all_below 256 (λ b. bit_xor a b == digits_xor 8 a b)) a xor_checked
        sa in
    ground (arith, all_below_sound 256 (λ b. bit_xor a b == digits_xor 8 a b) b row sb)

digits_xor_comm : (n a b : ℕ) → digits_xor n a b ≡ digits_xor n b a
unfolding digits_xor
digits_xor_comm zero a b = refl
digits_xor_comm (suc n) a b = omega (arith, digits_xor_comm n (a / 2) (b / 2))

pub digits_xor_self : (n a : ℕ) → digits_xor n a a ≡ 0
unfolding digits_xor
digits_xor_self zero a = refl
digits_xor_self (suc n) a = omega (arith, digits_xor_self n (a / 2))

pub digits_xor_zero : (n a : ℕ) → a < 2 ^ n → digits_xor n a 0 ≡ a
unfolding digits_xor
digits_xor_zero zero a small = omega (arith, small)
digits_xor_zero (suc n) a small = omega (arith, digits_xor_zero n (a / 2) (omega (arith, small)))

digits_xor_assoc :
    (n a b c : ℕ) → digits_xor n (digits_xor n a b) c ≡ digits_xor n a (digits_xor n b c)
unfolding digits_xor
digits_xor_assoc zero a b c = refl
digits_xor_assoc (suc n) a b c =
    let ab = digits_xor n (a / 2) (b / 2) in
    let bc = digits_xor n (b / 2) (c / 2) in
    let hl : (ab * 2 + (a % 2 + b % 2) % 2) / 2 ≡ ab = omega arith in
    let hr : (bc * 2 + (b % 2 + c % 2) % 2) / 2 ≡ bc = omega arith in
    rw (hl, hr, digits_xor_assoc n (a / 2) (b / 2) (c / 2)) (omega arith)

pub xor_assoc :
    (a b c : ℕ) → a < 256 → b < 256 → c < 256 → bit_xor (bit_xor a b) c ≡ bit_xor a (bit_xor b c)
xor_assoc a b c sa sb sc =
    let l = xor_small a b sa sb in
    let r = xor_small b c sb sc in
    rw
      (
        bit_xor_digits (bit_xor a b) c l sc,
        bit_xor_digits a (bit_xor b c) sa r,
        bit_xor_digits a b sa sb,
        bit_xor_digits b c sb sc,
      )
      (digits_xor_assoc 8 a b c)

pub xor_comm : (a b : ℕ) → a < 256 → b < 256 → bit_xor a b ≡ bit_xor b a
xor_comm a b sa sb =
    bit_xor_digits a b sa sb ∙ (digits_xor_comm 8 a b ∙ sym (bit_xor_digits b a sb sa))

-- A `u8`.
abbrev pub Byte : Type 0
Byte = (n : ℕ) × (n < 256)

pub Byte-ext : (a b : Byte) → a.0 ≡ b.0 → a ≡ b
Byte-ext a b e = Σ_prop_path (λ n. le_prop) e

pub byte_small : (n : ℕ) → n % 256 < 256
byte_small n = omega arith

abbrev pub byte : ℕ → Byte
byte n = (n % 256, byte_small n)

unfoldable pub inverse : ℕ → ℕ
inverse a = if a == 0 then 0 else exp_at ((255 - log_at a) % 255)

pub inverse_small : (a : ℕ) → inverse a < 256
unfolding inverse
inverse_small a = let p = log_at-exp_at ((255 - log_at a) % 255) (omega arith) in ground (arith, p)

pub gf_mul-inverse : (a : ℕ) → a < 256 → 0 < a → gf_mul a (inverse a) ≡ 1
unfolding inverse
gf_mul-inverse a small pos =
    let la = exp_at-log_at a pos small in
    let i = (255 - log_at a) % 255 in
    let p = log_at-exp_at i (omega arith) in
    let one : exp_at 0 ≡ 1 = ground (arith, log_at_checked) in
    let e : (log_at a + log_at (exp_at i)) % 255 ≡ 0 = omega (arith, la.0, p.2) in
    ground (arith, gf_mul_powers a (exp_at i) pos p.0, one, e, pos)

pub zero_small : 0 < 256
zero_small = ground arith

pub one_small : 1 < 256
one_small = ground arith

pub positive : (a : Byte) → a ≢ (0, zero_small) → 0 < a.0
positive a apart = ground (arith, λ (e : a.0 ≡ 0). apart (Byte-ext a (0, zero_small) e))

instance abbrev pub byte_field : CharTwoField Byte
byte_field = record {
  nil = (0, zero_small);
  one = (1, one_small);
  add = λ a b. (gf_add a.0 b.0, xor_small a.0 b.0 a.1 b.1);
  mul = λ a b. (gf_mul a.0 b.0, gf_mul_small a.0 b.0);
  inv = λ a. (inverse a.0, inverse_small a.0);
  add_assoc = λ a b c. Byte-ext _ _ (xor_assoc a.0 b.0 c.0 a.1 b.1 c.1);
  add_comm = λ a b. Byte-ext _ _ (xor_comm a.0 b.0 a.1 b.1);
  add-nil = λ a. Byte-ext _ _ (bit_xor_digits a.0 0 a.1 zero_small ∙ digits_xor_zero 8 a.0 a.1);
  add_self = λ a. Byte-ext _ _ (bit_xor_digits a.0 a.0 a.1 a.1 ∙ digits_xor_self 8 a.0);
  mul_assoc = λ a b c. Byte-ext _ _ (gf_mul_assoc a.0 b.0 c.0);
  mul_comm = λ a b. Byte-ext _ _ (gf_mul_comm a.0 b.0);
  mul-one = λ a. Byte-ext _ _ (gf_mul_one a.0 a.1);
  mul-add = λ a b c. Byte-ext _ _ (gf_mul_distrib a.0 b.0 c.0 a.1 b.1 c.1);
  mul-inv = λ a apart. Byte-ext _ _ (gf_mul-inverse a.0 a.1 (positive a apart));
}

pub one_apart : byte_field.one ≢ byte_field.nil
one_apart e = ground (arith, ap (λ (b : Byte). b.0) e)
