-- ===== src/Ghost/Render.antt =====
-- src/ghost.rs: the texts that the engine sends, and the fingerprint of a beacon.
use Prim.Native.Nat.{bit_xor}
use ess_p2p_rs.Shared.{
  ℕ, zero, suc, ◌+◌, ◌*◌, ◌/◌, ◌%◌, ◌^◌, ◌<◌, ◌≤◌, ◌≡◌, ◌-◌, refl, sym, ap, ◌∙◌, inl, inr, arith,
  Bool-cases, Bool, true, false, List, [], ◌∷◌, ◌++◌, Text, bytes, ltb, ◌==◌, if◌then◌else◌,
}
use ess_p2p_rs.Ghost.{GhostDecision, do_beacon, do_sync, do_panic, do_sleep, do_idle}

-- The decimal digits of a number with at most `fuel` of them.
pub digits : ℕ → ℕ → Text
digits zero n = []
digits (suc fuel) n =
    let rest = digits fuel (n / 10) ++ (48 + n % 10) ∷ [] in
    if ltb n 10 then (48 + n) ∷ [] else rest

-- `n.to_string()`: a number has no more digits than units, and one at least.
unfoldable pub decimal : ℕ → Text
unfolding digits
decimal n = digits (suc n) n

pub hex_digit : ℕ → ℕ
hex_digit d = if ltb d 10 then 48 + d else 87 + d

-- `{:032x}` at 32 digits.
pub hex_digits : ℕ → ℕ → Text
unfolding hex_digit
hex_digits zero n = []
hex_digits (suc k) n = hex_digits k (n / 16) ++ hex_digit (n % 16) ∷ []

-- `acc ^= b; acc = acc.wrapping_mul(0x100000001B3); acc ^= acc >> 33`, in 128 bits.
pub mix : ℕ → ℕ → ℕ
mix acc b =
    let product : ℕ = (bit_xor acc b * 0x100000001b3) % 2 ^ 128 in
    bit_xor product (product / 2 ^ 33)

pub mix_part : ℕ → Text → ℕ
unfolding mix
mix_part acc [] = acc
mix_part acc (b ∷ bs) = mix_part (mix acc b) bs

pub mix_parts : ℕ → List Text → ℕ
unfolding mix_part
mix_parts acc [] = acc
mix_parts acc (p ∷ ps) = mix_parts (mix_part acc p) ps

unfoldable pub simple_fingerprint : List Text → Text
unfolding mix_parts hex_digits
simple_fingerprint parts = hex_digits 32 (mix_parts 0x9e3779b97f4a7c15 parts)

unfoldable pub starts_with : Text → Text → Bool
starts_with [] s = true
starts_with (a ∷ p) [] = false
starts_with (a ∷ p) (b ∷ s) = let rest = starts_with p s in if a == b then rest else false

pub decision_name : GhostDecision → Text
decision_name do_beacon = bytes "beacon"
decision_name (do_sync force) = bytes "sync"
decision_name (do_panic reason) = bytes "panic"
decision_name do_sleep = bytes "sleep"
decision_name do_idle = bytes "idle"

-- `format!("ghost_decision:{:?}", …)`: `{:?}` puts a text in quotes.
unfoldable pub decision_message : GhostDecision → Text
unfolding decision_name
decision_message d = bytes "ghost_decision:" ++ (34 ∷ (decision_name d ++ 34 ∷ []))

-- A number below the fuel has all its digits.
digits_enough : (fuel more n : ℕ) → n < fuel → fuel ≤ more → digits more n ≡ digits fuel n
unfolding digits
digits_enough zero more n h le = ground arith
digits_enough (suc fuel) zero n h le = ground arith
digits_enough (suc fuel) (suc more) n h le = elim (Bool-cases (ltb n 10)) [
  | inl small ↦ ground (arith, small)
  | inr large ↦
      let shorter : n / 10 < fuel = ground (arith, large) in
      ground (arith, large, digits_enough fuel more (n / 10) shorter (omega arith))
]

-- The number that decimal digits stand for, after those that made `acc`.
value : Text → ℕ → ℕ
value [] acc = acc
value (c ∷ t) acc = value t (acc * 10 + (c - 48))

value_snoc : (t : Text) (c acc : ℕ) → value (t ++ c ∷ []) acc ≡ value t acc * 10 + (c - 48)
unfolding value
value_snoc [] c acc = refl
value_snoc (d ∷ t) c acc = value_snoc t c (acc * 10 + (d - 48))

value-digits : (fuel n : ℕ) → n < fuel → value (digits fuel n) 0 ≡ n
unfolding value digits
value-digits zero n h = ground (arith, h)
value-digits (suc fuel) n h = elim (Bool-cases (ltb n 10)) [
  | inl one ↦ rw one (omega arith)
  | inr more ↦
      let big : 10 ≤ n = ground (arith, more) in
      let ih = value-digits fuel (n / 10) (omega (arith, h, big)) in
      let e = value_snoc (digits fuel (n / 10)) (48 + n % 10) 0 in rw more (e ∙ omega (arith, ih))
]

-- Different numbers have different digits.
pub decimal_injective : (m n : ℕ) → decimal m ≡ decimal n → m ≡ n
unfolding decimal
decimal_injective m n e =
    sym (value-digits (suc m) m (omega arith))
    ∙ (ap (λ t. value t 0) e ∙ value-digits (suc n) n (omega arith))
