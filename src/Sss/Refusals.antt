-- ===== src/Sss/Refusals.antt =====
-- src/sss.rs: which inputs `split` and `reconstruct` refuse, and what a split gives.
use ess_p2p_rs.Shared.{
  ℕ, zero, suc, ◌≡◌, ◌≢◌, ◌≤◌, ◌<◌, ◌↔◌, refl, ap, ◌⊎◌, List, [], ◌∷◌, length, get_elem?, All,
  AllDistinct, none, some, arith,
}
use ess_p2p_rs.Shared.Order.{nat_ord}
use ess_p2p_rs.Shared.Sort.{sort, dedup}
use ess_p2p_rs.Shared.Distinct.{length-dedup-sort, dedup-sort-AllDistinct}
use ess_p2p_rs.Sss.{ok, err, invalid_threshold, empty_secret, duplicate_x, gf_div, gf_add, gf_mul}
use ess_p2p_rs.Sss.Shares.{
  Shard, all_coeffs, shards_from, split, Outcome, and_then, value_loop, secret_loop, xs_of,
  reconstruct, basis_loop,
}

length-shards_from : (coeffs : List (List ℕ)) (i n : ℕ) → length (shards_from coeffs i n) ≡ n
unfolding shards_from
length-shards_from coeffs i zero = refl
length-shards_from coeffs i (suc n) = ap suc (length-shards_from coeffs (suc i) n)

shards_from_above :
    (coeffs : List (List ℕ)) (x i n : ℕ) → x < i → All (λ z. x ≢ z) (xs_of (shards_from coeffs i n))
unfolding shards_from
shards_from_above coeffs x i zero below = tt
shards_from_above coeffs x i (suc n) below =
    ((λ e. omega (arith, e, below)), shards_from_above coeffs x (suc i) n (omega (arith, below)))

shards_from-AllDistinct :
    (coeffs : List (List ℕ)) (i n : ℕ) → AllDistinct (xs_of (shards_from coeffs i n))
unfolding shards_from
shards_from-AllDistinct coeffs i zero = tt
shards_from-AllDistinct coeffs i (suc n) =
    (shards_from_above coeffs i (suc i) n (omega arith), shards_from-AllDistinct coeffs (suc i) n)

-- A split is refused for its threshold exactly if the threshold is below 2 or above the number of
-- shards or there are more than 255 shards, and for its secret exactly if the threshold is sound
-- and the secret is empty.
pub split_refused :
    (random : ℕ → ℕ → ℕ) (secret : List ℕ) (k n : ℕ)
    → ((split random secret k n ≡ err invalid_threshold) ↔ ((k < 2) ⊎ ((n < k) ⊎ (255 < n))))
      × ((split random secret k n ≡ err empty_secret)
          ↔ ((2 ≤ k) × (k ≤ n) × (n ≤ 255) × (secret ≡ [])))
unfolding split
split_refused random [] k n = ground arith
split_refused random (b ∷ secret) k n = ground arith

-- A split of a secret that is not empty, with a threshold from 2 up to the number of shards and at
-- most 255 shards, gives that many shards with different points.
pub split_shares :
    (random : ℕ → ℕ → ℕ) (secret : List ℕ) (k n : ℕ)
    → 2 ≤ k
    → k ≤ n
    → n ≤ 255
    → 0 < length secret
    → (shards : List Shard) × (split random secret k n ≡ ok shards)
      × (length shards ≡ n)
      × AllDistinct (xs_of shards)
unfolding split
split_shares random [] k n two le small some_byte = ground (arith, some_byte)
split_shares random (b ∷ secret) k n two le small some_byte =
    let coeffs = all_coeffs random k 0 (b ∷ secret) in
    (
      shards_from coeffs 1 n,
      ground (arith, two, le, small),
      length-shards_from coeffs 1 n,
      shards_from-AllDistinct coeffs 1 n,
    )

gf_div_errors : (a b : ℕ) → gf_div a b ≢ err duplicate_x
unfolding gf_div
gf_div_errors a b e = ground (arith, e)

and_then_errors :
    {A B : Type 0} (o : Outcome A) (next : A → Outcome B)
    → o ≢ some (err duplicate_x)
    → ((a : A) → next a ≢ some (err duplicate_x))
    → and_then o next ≢ some (err duplicate_x)
and_then_errors none next h k e = ground (arith, e)
and_then_errors (some (err x)) next h k e = ground (arith, h, e)
and_then_errors (some (ok a)) next h k e = k a e

value_loop_errors :
    (shards : List Shard) (byte_idx i : ℕ) (rest : List Shard) (value : ℕ)
    → value_loop shards byte_idx i rest value ≢ some (err duplicate_x)
unfolding value_loop
value_loop_errors shards byte_idx i [] value = λ e. ground (arith, e)
value_loop_errors shards byte_idx i (s ∷ rest) value =
    elim (get_elem? s.y byte_idx)
      as (λ o.
        elim o as (λ _. Outcome ℕ) [
          | none ↦ none
          | some y ↦
              and_then
                (some (gf_div (basis_loop i s.x 0 shards 1 1).0 (basis_loop i s.x 0 shards 1 1).1))
                (λ b. value_loop shards byte_idx (suc i) rest (gf_add value (gf_mul y b)))
        ]
        ≢ some (err duplicate_x)) [
          | none ↦ (λ e. ground (arith, e))
          | some y ↦
              let parts = basis_loop i s.x 0 shards 1 1 in
              and_then_errors (some (gf_div parts.0 parts.1))
                (λ b. value_loop shards byte_idx (suc i) rest (gf_add value (gf_mul y b)))
                (λ e. ground (arith, e, gf_div_errors parts.0 parts.1))
                (λ b. value_loop_errors shards byte_idx (suc i) rest (gf_add value (gf_mul y b)))
        ]

secret_loop_errors :
    (shards : List Shard) (n byte_idx : ℕ) → secret_loop shards n byte_idx ≢ some (err duplicate_x)
unfolding secret_loop
secret_loop_errors shards zero byte_idx = λ e. ground (arith, e)
secret_loop_errors shards (suc n) byte_idx =
    and_then_errors (value_loop shards byte_idx 0 shards 0)
      (λ value. and_then (secret_loop shards n (suc byte_idx)) (λ rest. some (ok (value ∷ rest))))
      (value_loop_errors shards byte_idx 0 shards 0)
      (λ value.
        and_then_errors (secret_loop shards n (suc byte_idx)) (λ rest. some (ok (value ∷ rest)))
          (secret_loop_errors shards n (suc byte_idx)) (λ rest e. ground (arith, e)))

-- Shards, at least one, are refused for a repeated point exactly if two of them have the same
-- point.
pub reconstruct_duplicate :
    (first : Shard) (shards : List Shard)
    → (reconstruct (first ∷ shards) ≡ some (err duplicate_x))
      ↔ ¬ AllDistinct (xs_of (first ∷ shards))
unfolding reconstruct
reconstruct_duplicate first shards =
    let all = first ∷ shards in
    (
      (λ e apart.
          let unique = length-dedup-sort (xs_of all) apart in
          ground (arith, e, unique, secret_loop_errors all (length first.y) 0)),
      (λ same. ground (
        arith,
        λ (e : length (dedup (sort (xs_of all))) ≡ length (xs_of all)).
            same (dedup-sort-AllDistinct (xs_of all) e),
      )),
    )
