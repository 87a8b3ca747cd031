-- ===== src/Security/Limits/Cache.antt =====
-- src/security_runtime.rs: `NonceCache` refuses a nonce for its time to live, unless it was evicted,
-- and keeps to its size.
use ess_p2p_rs.Shared.{
  ℕ, suc, ◌-◌, ◌≤◌, ◌≡◌, refl, Bool, true, false, not, inl, inr, Option-cases, none, some, List, [],
  ◌∷◌, Text, ltb, length, arith,
}
use ess_p2p_rs.Shared.Order.{text_ord, beq_refl}
use ess_p2p_rs.Shared.Dict.{
  Dict, lookup, insert, remove, retain, contains_key, IsSorted, lookup-retain,
}
use ess_p2p_rs.Security.Limits.{oldest, evict, record_nonce, max_cache_size, nonce_ttl_secs}

length-retain : (p : Text → ℕ → Bool) (m : Dict Text ℕ) → length (retain p m) ≤ length m
unfolding retain
length-retain p [] = ground arith
length-retain p ((k, v) ∷ m) = ground (arith, length-retain p m)

length-insert : (k : Text) (v : ℕ) (m : Dict Text ℕ) → length (insert k v m) ≤ suc (length m)
unfolding insert
length-insert k v [] = ground arith
length-insert k v ((j, w) ∷ m) = ground (arith, length-insert k v m)

length-remove_le : (k : Text) (m : Dict Text ℕ) → length (remove k m) ≤ length m
unfolding remove
length-remove_le k [] = ground arith
length-remove_le k ((j, w) ∷ m) = ground (arith, length-remove_le k m)

-- A removal of a key that is there makes the map shorter.
length-remove :
    (k : Text) (m : Dict Text ℕ) → contains_key k m ≡ true → suc (length (remove k m)) ≤ length m
unfolding remove lookup
length-remove k [] h = cc
length-remove k ((j, w) ∷ m) h = ground (arith, h, length-remove k m, length-remove_le k m)

oldest-contains_key :
    (xs : List (Text × ℕ)) (e : Text × ℕ) → oldest xs ≡ some e → contains_key e.0 xs ≡ true
unfolding oldest lookup
oldest-contains_key [] e h = cc
oldest-contains_key ((k, t) ∷ xs) e h = elim (Option-cases (oldest xs)) [
  | inl absent ↦ ground (arith, absent, h, beq_refl k)
  | inr (later, found) ↦ ground (arith, found, h, beq_refl k, oldest-contains_key xs later found)
]

oldest_nil : (xs : List (Text × ℕ)) → oldest xs ≡ none → xs ≡ []
unfolding oldest
oldest_nil [] h = refl
oldest_nil ((k, t) ∷ xs) h = ground (arith, h)

module _ (iterated : Dict Text ℕ → List (Text × ℕ))
    (all_keys : (m : Dict Text ℕ) (k : Text) → contains_key k (iterated m) ≡ contains_key k m) where
  evict_oldest :
      (seen : Dict Text ℕ) (e : Text × ℕ)
      → oldest (iterated seen) ≡ some e
      → suc (length (remove e.0 seen)) ≤ length seen
  evict_oldest seen e h =
      length-remove e.0 seen
        (ground (arith, oldest-contains_key (iterated seen) e h, all_keys seen e.0))

  oldest_some :
      (k : Text) (t : ℕ) (m : Dict Text ℕ) → (oldest (iterated ((k, t) ∷ m)) ≡ none) → true ≡ false
  unfolding lookup
  oldest_some k t m h =
      ground (arith, oldest_nil (iterated ((k, t) ∷ m)) h, all_keys ((k, t) ∷ m) k, beq_refl k)

  length-evict :
      (seen : Dict Text ℕ)
      → length seen ≤ max_cache_size
      → suc (length (evict iterated seen)) ≤ max_cache_size
  unfolding evict
  length-evict [] h = ground arith
  length-evict ((k, t) ∷ m) h = elim (Option-cases (oldest (iterated ((k, t) ∷ m)))) [
    | inl absent ↦ ground (arith, absent, oldest_some k t m absent)
    | inr (e, found) ↦ ground (arith, found, h, evict_oldest ((k, t) ∷ m) e found)
  ]

  length-record_nonce :
      (seen : Dict Text ℕ) (nonce : Text) (now : ℕ)
      → length seen ≤ max_cache_size
      → length (record_nonce iterated seen nonce now).0 ≤ max_cache_size
  unfolding record_nonce
  length-record_nonce seen nonce now h =
      let fresh = λ (_ : Text) (t : ℕ). ltb (now - t) nonce_ttl_secs in
      let kept = retain fresh seen in
      let smaller = length-retain fresh seen in
      let kept_small : length kept ≤ max_cache_size = ground (arith, h, smaller) in
      ground (
        arith,
        kept_small,
        length-evict kept kept_small,
        length-insert nonce now (evict iterated kept),
      )

  unfoldable pub record_all : Dict Text ℕ → List (Text × ℕ) → Dict Text ℕ
  record_all seen [] = seen
  record_all seen ((nonce, now) ∷ rest) = record_all (record_nonce iterated seen nonce now).0 rest

  length-record_all :
      (seen : Dict Text ℕ) (calls : List (Text × ℕ))
      → length seen ≤ max_cache_size
      → length (record_all seen calls) ≤ max_cache_size
  unfolding record_all
  length-record_all seen [] h = h
  length-record_all seen ((nonce, now) ∷ rest) h =
      length-record_all (record_nonce iterated seen nonce now).0 rest
        (length-record_nonce seen nonce now h)

  -- Whatever nonces come, the nonce cache holds at most 10,000, if the iteration of its map yields
  -- exactly the keys of the map.
  pub cache_bounded : (calls : List (Text × ℕ)) → length (record_all [] calls) ≤ max_cache_size
  cache_bounded calls = length-record_all [] calls (ground arith)

  -- A sorted nonce cache accepts a nonce exactly if it holds no time for it that is within the time
  -- to live.
  pub record_nonce_accepts :
      (seen : Dict Text ℕ) (nonce : Text) (now : ℕ)
      → IsSorted seen
      → (record_nonce iterated seen nonce now).1
        ≡ (elim (lookup nonce seen) [ none ↦ true | some t ↦ not (ltb (now - t) nonce_ttl_secs) ])
  unfolding record_nonce
  record_nonce_accepts seen nonce now s =
      let fresh = λ (_ : Text) (t : ℕ). ltb (now - t) nonce_ttl_secs in
      ground (arith, lookup-retain nonce fresh seen s)
