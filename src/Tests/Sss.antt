-- ===== src/Tests/Sss.antt =====
-- src/sss.rs on a few bytes.
use ess_p2p_rs.Shared.{ℕ, ◌≡◌, ◌<◌, ◌%◌, ◌+◌, ◌*◌, refl, arith, List, [], ◌∷◌, inl, inr, some}
use ess_p2p_rs.Sss.{raw_mul_loop, ok}
use ess_p2p_rs.Sss.Shares.{Shard, shard_at, split, all_coeffs, shards_from, reconstruct}
use ess_p2p_rs.Sss.Secret.{reconstruct-split}
use ess_p2p_rs.Sss.Field.{raw_mul_loop_enough}

abbrev random : ℕ → ℕ → ℕ
random call i = (call * 7 + 31 * i + 90) % 256

random_small : (call i : ℕ) → random call i < 256
random_small call i = omega arith

-- A secret of two bytes.
abbrev secret : List ℕ
secret = 83 ∷ 200 ∷ []

abbrev coeffs : List (List ℕ)
coeffs = all_coeffs random 2 0 secret

abbrev shards : List Shard
shards = shard_at coeffs 1 ∷ shard_at coeffs 2 ∷ shard_at coeffs 3 ∷ []

shards-split : split random secret 2 3 ≡ ok shards
unfolding split shards_from
shards-split = refl

reconstruct-split_example :
    reconstruct (shard_at coeffs 3 ∷ shard_at coeffs 1 ∷ []) ≡ some (ok secret)
reconstruct-split_example =
    reconstruct-split random secret 2 3 shards (shard_at coeffs 3 ∷ shard_at coeffs 1 ∷ [])
      random_small (ground arith, (ground arith, tt)) shards-split
      (inr (inr (inl refl)), (inl refl, tt)) (((λ e. omega (arith, e)), tt), (tt, tt))
      (ground arith)

raw_mul_loop_enough_example : raw_mul_loop 100 0 7 5 ≡ raw_mul_loop 3 0 7 5
raw_mul_loop_enough_example = raw_mul_loop_enough 3 100 0 7 5 (ground arith) (ground arith)
