-- ===== src/Sss.antt =====
-- src/sss.rs: the field of 256 elements that secret sharing computes in. A `u8` is a number below 256.
pub mod Field
pub mod Distrib
pub mod CharTwo
pub mod Lagrange
pub mod Powers
pub mod Bytes
pub mod Shares
pub mod Weights
pub mod Recover
pub mod Secret
pub mod Refusals
use Prim.Native.Nat.{bit_xor}
use ess_p2p_rs.Shared.{
  ℕ, zero, suc, ◌+◌, ◌-◌, ◌*◌, ◌/◌, ◌%◌, ◌^◌, Bool, not, ◌||◌, List, [], ◌∷◌, ◌++◌, ltb, ◌==◌, take,
  if◌then◌else◌,
}

pub data SssError : Type 0 where
  invalid_threshold not_enough_shards duplicate_x empty_secret division_by_zero : SssError

pub data Result {ℓ} (A : Type ℓ) : Type ℓ where
  ok : A → Result A
  err : SssError → Result A

-- The loop of `gf256_raw_mul`, at most `fuel` times round.
unfoldable pub raw_mul_loop : ℕ → ℕ → ℕ → ℕ → ℕ
raw_mul_loop zero result a b = result
raw_mul_loop (suc fuel) result a b =
    let added = if b % 2 == 1 then bit_xor result a else result in
    let shifted = (a * 2) % 2 ^ 16 in
    let reduced = if (shifted / 256) % 2 == 0 then shifted else bit_xor shifted 0x11b in
    let rest = raw_mul_loop fuel added reduced (b / 2) in if ltb 0 b then rest else result

-- A `u16` is zero after 16 shifts.
unfoldable pub gf256_raw_mul : ℕ → ℕ → ℕ
unfolding raw_mul_loop
gf256_raw_mul a b = raw_mul_loop 16 0 a b % 256

-- What the loop of `generate` writes to the table of powers in so many rounds.
unfoldable pub powers : ℕ → ℕ → List ℕ
unfolding gf256_raw_mul
powers zero x = []
powers (suc n) x = (x % 256) ∷ powers n (gf256_raw_mul x 3)

abbrev pub set_elem : ℕ → ℕ → List ℕ → List ℕ
set_elem i v [] = []
set_elem zero v (x ∷ xs) = v ∷ xs
set_elem (suc i) v (x ∷ xs) = x ∷ set_elem i v xs

abbrev pub elem_at : List ℕ → ℕ → ℕ
elem_at [] i = 0
elem_at (x ∷ xs) zero = x
elem_at (x ∷ xs) (suc i) = elem_at xs i

abbrev pub zeros : ℕ → List ℕ
zeros zero = []
zeros (suc n) = 0 ∷ zeros n

-- The table of logarithms: the place of each power.
unfoldable pub places : List ℕ → ℕ → List ℕ → List ℕ
places [] i log = log
places (x ∷ xs) i log = places xs (i + 1) (set_elem x i log)

pub record Gf256Tables : Type 0 where
  pub exp : List ℕ
  pub log : List ℕ

unfoldable pub generate : Gf256Tables
unfolding powers places
generate =
    let cycle = powers 255 1 in
    record { exp = cycle ++ (cycle ++ take 2 cycle); log = places cycle 0 (zeros 256) }

abbrev pub exp_at : ℕ → ℕ
exp_at i = elem_at generate.exp i

abbrev pub log_at : ℕ → ℕ
log_at a = elem_at generate.log a

abbrev pub gf_add : ℕ → ℕ → ℕ
gf_add a b = bit_xor a b

abbrev pub gf_sub : ℕ → ℕ → ℕ
gf_sub a b = bit_xor a b

unfoldable pub gf_mul : ℕ → ℕ → ℕ
gf_mul a b = if a == 0 || b == 0 then 0 else exp_at ((log_at a + log_at b) % 255)

unfoldable pub gf_div : ℕ → ℕ → Result ℕ
gf_div a b =
    if b == 0
    then err division_by_zero
    else if a == 0
    then ok 0
    else ok (exp_at (((log_at a + 255) - log_at b) % 255))
