-- ===== src/Sss/Shares.antt =====
-- src/sss.rs: shards, `split` and `reconstruct`. The bytes that the system's generator draws are the
-- argument `random`, by the number of the call and the place in its buffer.
use ess_p2p_rs.Shared.{
  ℕ, zero, suc, ◌-◌, ◌==◌, ◌||◌, List, [], ◌∷◌, map, length, is_empty, get_elem?, Option, none,
  some, ltb, if◌then◌else◌, ◌≡◌, ◌⊎◌,
}
use ess_p2p_rs.Shared.Sort.{sort, dedup}
use ess_p2p_rs.Shared.Order.{nat_ord}
use ess_p2p_rs.Sss.{
  Result, ok, err, invalid_threshold, not_enough_shards, duplicate_x, empty_secret, gf_add, gf_sub,
  gf_mul, gf_div,
}

-- The rounds of `poly_eval`, from a sum and a power.
unfoldable pub poly_eval_loop : List ℕ → ℕ → ℕ → ℕ → ℕ
poly_eval_loop [] x result x_pow = result
poly_eval_loop (coeff ∷ coeffs) x result x_pow =
    poly_eval_loop coeffs x (gf_add result (gf_mul coeff x_pow)) (gf_mul x_pow x)

abbrev pub poly_eval : List ℕ → ℕ → ℕ
poly_eval coeffs x = poly_eval_loop coeffs x 0 1

pub record Shard : Type 0 where
  pub x : ℕ
  pub y : List ℕ

-- A buffer of `n` random bytes, from the place `i` on.
unfoldable pub fill_bytes : (ℕ → ℕ) → ℕ → ℕ → List ℕ
fill_bytes random i zero = []
fill_bytes random i (suc n) = random i ∷ fill_bytes random (suc i) n

unfoldable pub all_coeffs : (ℕ → ℕ → ℕ) → ℕ → ℕ → List ℕ → List (List ℕ)
unfolding fill_bytes
all_coeffs random k call [] = []
all_coeffs random k call (secret_byte ∷ secret) =
    (secret_byte ∷ fill_bytes (random call) 0 (k - 1)) ∷ all_coeffs random k (suc call) secret

abbrev pub shard_at : List (List ℕ) → ℕ → Shard
shard_at coeffs i = record { x = i; y = map (λ c. poly_eval c i) coeffs }

-- The shards for `n` points from `i` on.
unfoldable pub shards_from : List (List ℕ) → ℕ → ℕ → List Shard
shards_from coeffs i zero = []
shards_from coeffs i (suc n) = shard_at coeffs i ∷ shards_from coeffs (suc i) n

unfoldable pub split : (ℕ → ℕ → ℕ) → List ℕ → ℕ → ℕ → Result (List Shard)
split random secret k n =
    if ltb k 2 || (ltb n k || ltb 255 n)
    then err invalid_threshold
    else if is_empty secret
    then err empty_secret
    else ok (shards_from (all_coeffs random k 0 secret) 1 n)

-- The numerator and the denominator of the basis of shard `i`; `j` counts the other shards.
unfoldable pub basis_loop : ℕ → ℕ → ℕ → List Shard → ℕ → ℕ → ℕ × ℕ
basis_loop i xi j [] numerator denominator = (numerator, denominator)
basis_loop i xi j (shard_j ∷ shards) numerator denominator =
    let skipped = basis_loop i xi (suc j) shards numerator denominator in
    let rest =
      basis_loop i xi (suc j) shards (gf_mul numerator shard_j.x)
        (gf_mul denominator (gf_sub xi shard_j.x)) in
    if i == j then skipped else rest

-- `none` where the code panics, at an index past the end of a shard.
abbrev pub Outcome : Type 0 → Type 0
Outcome A = Option (Result A)

abbrev pub and_then : {A B : Type 0} → Outcome A → (A → Outcome B) → Outcome B
and_then none next = none
and_then (some (err e)) next = some (err e)
and_then (some (ok a)) next = next a

-- The byte `byte_idx` of the secret: what the shards from `i` on add to `value`.
unfoldable pub value_loop : List Shard → ℕ → ℕ → List Shard → ℕ → Outcome ℕ
value_loop shards byte_idx i [] value = some (ok value)
value_loop shards byte_idx i (shard_i ∷ rest) value = elim (get_elem? shard_i.y byte_idx) [
  | none ↦ none
  | some yi ↦
      let parts = basis_loop i shard_i.x 0 shards 1 1 in
      and_then (some (gf_div parts.0 parts.1))
        (λ basis. value_loop shards byte_idx (suc i) rest (gf_add value (gf_mul yi basis)))
]

-- The bytes of the secret, `n` of them from `byte_idx` on.
unfoldable pub secret_loop : List Shard → ℕ → ℕ → Outcome (List ℕ)
secret_loop shards zero byte_idx = some (ok [])
secret_loop shards (suc n) byte_idx =
    and_then (value_loop shards byte_idx 0 shards 0)
      (λ value. and_then (secret_loop shards n (suc byte_idx)) (λ rest. some (ok (value ∷ rest))))

abbrev pub xs_of : List Shard → List ℕ
xs_of [] = []
xs_of (s ∷ shards) = s.x ∷ xs_of shards

unfoldable pub reconstruct : List Shard → Outcome (List ℕ)
unfolding sort dedup
reconstruct [] = some (err not_enough_shards)
reconstruct (first ∷ shards) =
    let all = first ∷ shards in
    if length (dedup (sort (xs_of all))) == length (xs_of all)
    then secret_loop all (length first.y) 0
    else some (err duplicate_x)

-- One of these shards.
abbrev pub Among : Shard → List Shard → Type 0
Among s [] = ⊥
Among s (z ∷ shards) = (s ≡ z) ⊎ Among s shards
