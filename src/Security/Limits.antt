-- ===== src/Security/Limits.antt =====
-- src/security_runtime.rs: `NonceCache` and `RateLimiter`. An `Instant` counts seconds in the limiter
-- and the cache alike; `iterated` is the order in which the map of the cache yields its entries.
pub mod Rate
pub mod Cache
use ess_p2p_rs.Shared.{
  ℕ, ◌-◌, Bool, true, false, Option, none, some, List, [], ◌∷◌, ◌++◌, Text, ltb, leb, length,
  unwrap_or, if◌then◌else◌,
}
use ess_p2p_rs.Shared.Order.{text_ord}
use ess_p2p_rs.Shared.Dict.{Dict, lookup, insert, remove, retain, contains_key}

abbrev pub nonce_ttl_secs : ℕ
nonce_ttl_secs = 900

abbrev pub max_cache_size : ℕ
max_cache_size = 10000

-- `min_by_key`: the first of the entries with the least instant.
unfoldable pub oldest : List (Text × ℕ) → Option (Text × ℕ)
oldest [] = none
oldest ((nonce, t) ∷ rest) = elim (oldest rest) [
  | none ↦ some (nonce, t)
  | some later ↦ if ltb later.1 t then some later else some (nonce, t)
]

module _ (iterated : Dict Text ℕ → List (Text × ℕ)) where
  unfoldable pub evict : Dict Text ℕ → Dict Text ℕ
  unfolding oldest
  evict seen =
      if leb max_cache_size (length seen)
      then (elim (oldest (iterated seen)) [ none ↦ seen | some entry ↦ remove entry.0 seen ])
      else seen

  -- `NonceCache::record`
  unfoldable pub record_nonce : Dict Text ℕ → Text → ℕ → Dict Text ℕ × Bool
  unfolding evict
  record_nonce seen nonce now =
      let kept = retain (λ _ t. ltb (now - t) nonce_ttl_secs) seen in
      if contains_key nonce kept then (kept, false) else (insert nonce now (evict kept), true)

pub record RateLimiter : Type 0 where
  pub attempts : Dict Text (List ℕ)
  pub max_attempts : ℕ
  pub window : ℕ

abbrev pub new : ℕ → ℕ → RateLimiter
new max_attempts window_secs = record {
  attempts = [];
  max_attempts = max_attempts;
  window = window_secs;
}

-- `entry.retain(|t| now.duration_since(*t) < self.window)`
unfoldable pub within : ℕ → ℕ → List ℕ → List ℕ
within window now [] = []
within window now (t ∷ ts) =
    let rest = within window now ts in if ltb (now - t) window then t ∷ rest else rest

unfoldable pub check : RateLimiter → Text → ℕ → RateLimiter × Bool
unfolding within
check limiter key now =
    let entry = within limiter.window now (unwrap_or (lookup key limiter.attempts) []) in
    if leb limiter.max_attempts (length entry)
    then (record limiter { attempts = insert key entry limiter.attempts }, false)
    else (record limiter { attempts = insert key (entry ++ now ∷ []) limiter.attempts }, true)
