-- ===== src/Shared/Order.antt =====
-- Keys with a total order, as Rust's `Ord`, and text as the bytes that Rust compares.
use Prim.Native.Nat.{ℕ}
use Prim.Native.Char.{code}
use Prim.Native.String.{String}
use mathlib.Core.Path.{◌≡◌, refl}
use mathlib.Core.Logic.{◌↔◌}
use mathlib.Core.Bool.{Bool, true, false}
use mathlib.Core.List.{List, [], ◌∷◌}
use native.Mathlib.Omega.{arith}
use ess_p2p_rs.Shared.Tests.{ltb, ◌==◌, ==_iff, if◌then◌else◌}

pub record Ord {ℓ} (K : Type ℓ) : Type ℓ where
  pub beq : K → K → Bool
  pub blt : K → K → Bool
  pub beq_iff : (a b : K) → (beq a b ≡ true) ↔ (a ≡ b)
  pub blt_irrefl : (a : K) → blt a a ≡ false
  pub blt_trans : (a b c : K) → blt a b ≡ true → blt b c ≡ true → blt a c ≡ true
  pub blt_total : (a b : K) → beq a b ≡ false → blt a b ≡ false → blt b a ≡ true

module _ {ℓ} {K : Type ℓ} ⦃o : Ord K⦄ where
  pub beq_refl : (a : K) → o.beq a a ≡ true
  beq_refl a = (o.beq_iff a a).1 refl

  pub beq_comm : (a b : K) → o.beq a b ≡ o.beq b a
  beq_comm a b = ground (arith, o.beq_iff a b, o.beq_iff b a)

  -- A smaller key is another key.
  pub beq_of_blt : (a b : K) → o.blt a b ≡ true → o.beq a b ≡ false
  beq_of_blt a b h = ground (arith, o.beq_iff a b, o.blt_irrefl a)

  pub blt_asymm : (a b : K) → o.blt a b ≡ true → o.blt b a ≡ false
  blt_asymm a b h = ground (arith, o.blt_trans a b a, o.blt_irrefl a)

pub nat_irrefl : (a : ℕ) → ltb a a ≡ false
nat_irrefl a = ground arith

pub nat_trans : (a b c : ℕ) → ltb a b ≡ true → ltb b c ≡ true → ltb a c ≡ true
nat_trans a b c h k = ground arith

pub nat_total : (a b : ℕ) → (a == b) ≡ false → ltb a b ≡ false → ltb b a ≡ true
nat_total a b h k = ground arith

instance abbrev pub nat_ord : Ord ℕ
nat_ord = record {
  beq = ◌==◌;
  blt = ltb;
  beq_iff = ==_iff;
  blt_irrefl = nat_irrefl;
  blt_trans = nat_trans;
  blt_total = nat_total;
}

-- A Rust `String` is its bytes, compared lexicographically.
abbrev pub Text : Type 0
Text = List ℕ

abbrev pub bytes : String → Text
bytes String.[] = []
bytes (String.◌∷◌ c s) = code c ∷ bytes s

abbrev pub text_eq : Text → Text → Bool
text_eq [] [] = true
text_eq [] (b ∷ t) = false
text_eq (a ∷ s) [] = false
text_eq (a ∷ s) (b ∷ t) = let rest = text_eq s t in if a == b then rest else false

abbrev pub text_lt : Text → Text → Bool
text_lt [] [] = false
text_lt [] (b ∷ t) = true
text_lt (a ∷ s) [] = false
text_lt (a ∷ s) (b ∷ t) = let rest = text_lt s t in if a == b then rest else ltb a b

pub text_eq_iff : (s t : Text) → (text_eq s t ≡ true) ↔ (s ≡ t)
text_eq_iff [] [] = ground arith
text_eq_iff [] (b ∷ t) = ground arith
text_eq_iff (a ∷ s) [] = ground arith
text_eq_iff (a ∷ s) (b ∷ t) = ground (arith, text_eq_iff s t)

pub text_irrefl : (s : Text) → text_lt s s ≡ false
text_irrefl [] = refl
text_irrefl (a ∷ s) = ground (arith, text_irrefl s)

pub text_trans : (s t u : Text) → text_lt s t ≡ true → text_lt t u ≡ true → text_lt s u ≡ true
text_trans [] [] u h k = ground arith
text_trans [] (b ∷ t) [] h k = ground arith
text_trans [] (b ∷ t) (c ∷ u) h k = refl
text_trans (a ∷ s) [] u h k = ground arith
text_trans (a ∷ s) (b ∷ t) [] h k = ground arith
text_trans (a ∷ s) (b ∷ t) (c ∷ u) h k = ground (arith, text_trans s t u)

pub text_total : (s t : Text) → text_eq s t ≡ false → text_lt s t ≡ false → text_lt t s ≡ true
text_total [] [] h k = ground arith
text_total [] (b ∷ t) h k = ground arith
text_total (a ∷ s) [] h k = refl
text_total (a ∷ s) (b ∷ t) h k = ground (arith, text_total s t)

instance abbrev pub text_ord : Ord Text
text_ord = record {
  beq = text_eq;
  blt = text_lt;
  beq_iff = text_eq_iff;
  blt_irrefl = text_irrefl;
  blt_trans = text_trans;
  blt_total = text_total;
}
