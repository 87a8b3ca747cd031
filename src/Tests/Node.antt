-- ===== src/Tests/Node.antt =====
-- A small node: its cryptography, its floating-point numbers and its clock.
use ess_p2p_rs.Shared.{ℕ, true, ◌∷◌, bytes, ltb}
use ess_p2p_rs.Shared.Order.{text_ord}
use ess_p2p_rs.Authority.Manager.{Crypto}
use ess_p2p_rs.Health.Policy.{Floats}
use ess_p2p_rs.Runtime.{Clock, Env}

-- A key signs a text by standing before it.
abbrev pub crypto : Crypto ℕ
crypto = record {
  sha256 = λ material. material;
  parses = λ signature. true;
  accepts = λ key material signature. text_ord.beq signature (key ∷ material);
}

-- Thousandths in place of `f64`.
abbrev pub floats : Floats
floats = record { F = ℕ; lt = ltb; f_0_05 = 50; f_0_1 = 100; f_0_2 = 200; f_2000 = 2000000 }

abbrev pub env : Env
env = record {
  trim = λ s. s;
  floats = floats;
  of_bits = λ bits. 500;
  debug = λ kind. bytes "event";
}

abbrev pub clock : Clock
clock = record { now = 7; ts = bytes "t" }
