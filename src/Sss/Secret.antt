-- ===== src/Sss/Secret.antt =====
-- src/sss.rs: what `split` and `reconstruct` promise: any `k` shards with different points give the
-- secret back, and which inputs the two refuse.
use ess_p2p_rs.Shared.{
  ℕ, zero, suc, ◌+◌, ◌-◌, ◌≡◌, ◌≢◌, ◌≤◌, ◌<◌, ◌==◌, refl, ap, ◌∙◌, inl, inr, List, [], ◌∷◌, length,
  length-map, get_elem?, All, All-map, AllDistinct, some, arith, true,
}
use ess_p2p_rs.Shared.Order.{nat_ord}
use ess_p2p_rs.Shared.Sort.{sort, dedup}
use ess_p2p_rs.Shared.Distinct.{length-dedup-sort}
use ess_p2p_rs.Sss.{ok}
use ess_p2p_rs.Sss.Bytes.{Byte}
use ess_p2p_rs.Sss.Shares.{
  poly_eval, Shard, fill_bytes, all_coeffs, shards_from, split, secret_loop, xs_of, reconstruct,
  Among,
}
use ess_p2p_rs.Sss.Recover.{IsShare, Small, value_loop-constant}
use ess_p2p_rs.Sss.Weights.{point, points}

fill_bytes-Small :
    (random : ℕ → ℕ) (i n : ℕ) → ((j : ℕ) → random j < 256) → Small (fill_bytes random i n)
unfolding fill_bytes
fill_bytes-Small random i zero small = tt
fill_bytes-Small random i (suc n) small = (small i, fill_bytes-Small random (suc i) n small)

length-fill_bytes : (random : ℕ → ℕ) (i n : ℕ) → length (fill_bytes random i n) ≡ n
unfolding fill_bytes
length-fill_bytes random i zero = refl
length-fill_bytes random i (suc n) = ap suc (length-fill_bytes random (suc i) n)

length-all_coeffs :
    (random : ℕ → ℕ → ℕ) (k call : ℕ) (secret : List ℕ)
    → length (all_coeffs random k call secret) ≡ length secret
unfolding all_coeffs
length-all_coeffs random k call [] = refl
length-all_coeffs random k call (b ∷ secret) = ap suc (length-all_coeffs random k (suc call) secret)

secret_loop-all_coeffs :
    (random : ℕ → ℕ → ℕ) (k call : ℕ) (coeffs : List (List ℕ)) (shards : List Shard) (byte_idx : ℕ)
    (secret : List ℕ)
    → ((c i : ℕ) → random c i < 256)
    → Small secret
    → ((i : ℕ) → get_elem? coeffs (byte_idx + i) ≡ get_elem? (all_coeffs random k call secret) i)
    → All (IsShare coeffs) shards
    → AllDistinct (points shards)
    → 2 ≤ k
    → k ≤ length shards
    → secret_loop shards (length secret) byte_idx ≡ some (ok secret)
unfolding secret_loop all_coeffs
secret_loop-all_coeffs random k call coeffs shards byte_idx [] drawn small at shares apart two
      enough =
    refl
secret_loop-all_coeffs random k call coeffs shards byte_idx (b ∷ secret) drawn small at shares apart
      two enough =
    let cs = fill_bytes (random call) 0 (k - 1) in
    let here : get_elem? coeffs byte_idx ≡ some (b ∷ cs) =
      ap (get_elem? coeffs) (omega arith) ∙ at 0 in
    let n = length-fill_bytes (random call) 0 (k - 1) in
    let value =
      value_loop-constant coeffs b cs byte_idx shards here
        (small.0, fill_bytes-Small (random call) 0 (k - 1) (drawn call)) shares apart
        (omega (arith, n, two, enough)) in
    let later =
      secret_loop-all_coeffs random k (suc call) coeffs shards (suc byte_idx) secret drawn small.1
        (λ i. ap (get_elem? coeffs) (omega arith) ∙ at (suc i)) shares apart two enough in
    rw (value, later) refl

shards_from-IsShare :
    (coeffs : List (List ℕ)) (i n : ℕ) (s : Shard)
    → i + n ≤ 256
    → Among s (shards_from coeffs i n)
    → IsShare coeffs s
unfolding shards_from
shards_from-IsShare coeffs i zero s le h = absurd h
shards_from-IsShare coeffs i (suc n) s le (inl e) = rw e (omega (arith, le), refl)
shards_from-IsShare coeffs i (suc n) s le (inr h) =
    shards_from-IsShare coeffs (suc i) n s (omega (arith, le)) h

points_apart :
    (s : Shard) (shards : List Shard)
    → s.x < 256
    → All (λ z. z.x < 256) shards
    → All (λ x. s.x ≢ x) (xs_of shards)
    → All (λ z. point s ≢ z) (points shards)
points_apart s [] own small apart = tt
points_apart s (z ∷ shards) own small apart = (
  (λ e. apart.0 (omega (arith, ap (λ (b : Byte). b.0) e, own, small.0))),
  points_apart s shards own small.1 apart.1,
)

points-AllDistinct :
    (shards : List Shard)
    → All (λ z. z.x < 256) shards
    → AllDistinct (xs_of shards)
    → AllDistinct (points shards)
points-AllDistinct [] small apart = tt
points-AllDistinct (s ∷ shards) small apart =
    (points_apart s shards small.0 small.1 apart.0, points-AllDistinct shards small.1 apart.1)

-- What a split that succeeds has checked and given out.
split_parts :
    (random : ℕ → ℕ → ℕ) (secret : List ℕ) (k n : ℕ) (shards : List Shard)
    → split random secret k n ≡ ok shards
    → (2 ≤ k) × (k ≤ n) × (n ≤ 255) × (shards_from (all_coeffs random k 0 secret) 1 n ≡ shards)
unfolding split
split_parts random secret k n shards e = ground (arith, e)

reconstruct_shares :
    (coeffs : List (List ℕ)) (shards : List Shard) (secret : List ℕ)
    → 0 < length shards
    → All (IsShare coeffs) shards
    → AllDistinct (xs_of shards)
    → length coeffs ≡ length secret
    → secret_loop shards (length secret) 0 ≡ some (ok secret)
    → reconstruct shards ≡ some (ok secret)
unfolding reconstruct
reconstruct_shares coeffs [] secret some_shard shares apart n loop = ground (arith, some_shard)
reconstruct_shares coeffs (first ∷ shards) secret some_shard shares apart n loop =
    let all = first ∷ shards in
    let unique = length-dedup-sort (xs_of all) apart in
    let len : length first.y ≡ length secret =
      ap length shares.0.1 ∙ (length-map (λ c. poly_eval c first.x) coeffs ∙ n) in
    let same : (length (dedup (sort (xs_of all))) == length (xs_of all)) ≡ true =
      ground (arith, unique) in
    rw (same, len) loop

-- If a secret of bytes is split with threshold k, then any k or more of the shards, with different
-- points and in any order, give the secret back, whatever bytes were drawn.
pub reconstruct-split :
    (random : ℕ → ℕ → ℕ) (secret : List ℕ) (k n : ℕ) (shards picked : List Shard)
    → ((c i : ℕ) → random c i < 256)
    → Small secret
    → split random secret k n ≡ ok shards
    → All (λ s. Among s shards) picked
    → AllDistinct (xs_of picked)
    → k ≤ length picked
    → reconstruct picked ≡ some (ok secret)
reconstruct-split random secret k n shards picked drawn small e among apart enough =
    let parts = split_parts random secret k n shards e in
    let coeffs = all_coeffs random k 0 secret in
    let shares : All (IsShare coeffs) picked =
      All-map (λ s. Among s shards) (IsShare coeffs) picked
        (λ s h. shards_from-IsShare coeffs 1 n s (omega (arith, parts.2)) (rw parts.3 h)) among in
    let near = All-map (IsShare coeffs) (λ z. z.x < 256) picked (λ z h. h.0) shares in
    reconstruct_shares coeffs picked secret (omega (arith, parts.0, enough)) shares apart
      (length-all_coeffs random k 0 secret)
      (secret_loop-all_coeffs random k 0 coeffs picked 0 secret drawn small
        (λ i. ap (get_elem? coeffs) (omega arith)) shares (points-AllDistinct picked near apart)
        parts.0 enough)
