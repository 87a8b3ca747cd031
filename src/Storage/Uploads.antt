-- ===== src/Storage/Uploads.antt =====
-- src/storage_layer/store.rs: the chunks that an upload leaves in the cache and in Kademlia.
use ess_p2p_rs.Shared.{
  ℕ, suc, ◌≡◌, ◌<◌, refl, sym, ap, ◌∙◌, Bool, true, false, inl, inr, Option, none, some, List, [],
  ◌∷◌, Text, arith,
}
use mathlib.Core.Path.{subst}
use ess_p2p_rs.Shared.Order.{text_ord}
use ess_p2p_rs.Shared.Dict.{Dict, lookup, insert, lookup-insert, lookup-insert_self}
use ess_p2p_rs.Storage.{Fallible, Chunk, Cipher, Wire, Dht, encrypt, chunk_key, chunk_id}
use ess_p2p_rs.Storage.Chunks.{chunk_key_apart}
use ess_p2p_rs.Storage.Object.{StorageLayer, StorageResponse, success}
use ess_p2p_rs.Storage.Put.{put_encoded, put_chunk, proceed, put_chunks, encrypt_all}

-- The store with a chunk in its cache.
abbrev caching : StorageLayer → Chunk → StorageLayer
caching s c = record s { local_cache = insert (chunk_id c) c s.local_cache }

abbrev pub is_success : StorageResponse → Bool
is_success success = true
is_success r = false

module _ (cipher : Cipher) (wire : Wire) (dht : Dht) (nonce : ℕ → List ℕ) where
  encoded_cached :
      (s : StorageLayer) (c : Chunk) (o : Fallible (List ℕ)) (u : Unit {0})
      → (put_encoded cipher wire dht nonce s c o).0 ≡ inr u
      → (put_encoded cipher wire dht nonce s c o).1 ≡ caching s c
  encoded_cached s c (inl e) u h = ground (arith, h)
  encoded_cached s c (inr value) u h = refl

  proceeded :
      (i : ℕ) (o : Fallible Unit) (s : StorageLayer) (rest : Option Text × StorageLayer)
      → (proceed cipher wire dht nonce i o s rest).0 ≡ none
      → (o ≡ inr tt) × (proceed cipher wire dht nonce i o s rest ≡ rest)
  proceeded i (inl e) s rest h = ground (arith, h)
  proceeded i (inr u) s rest h = (refl, refl)

  -- A loop that goes on past its first chunk has put it into the cache.
  put_chunks_step :
      (s : StorageLayer) (c : Chunk) (cs : List Chunk)
      → (put_chunks cipher wire dht nonce s (c ∷ cs)).0 ≡ none
      → put_chunks cipher wire dht nonce s (c ∷ cs)
        ≡ put_chunks cipher wire dht nonce (caching s c) cs
  unfolding put_chunks put_chunk
  put_chunks_step s c cs h =
      let one = put_chunk cipher wire dht nonce s c in
      let (fine, on) =
        proceeded c.chunk_index one.0 one.1 (put_chunks cipher wire dht nonce one.1 cs) h in
      on
      ∙ ap (λ s. put_chunks cipher wire dht nonce s cs)
          (encoded_cached s c (wire.chunk_bytes c) tt fine)

  -- The loop changes nothing but the cache.
  abbrev pub SameRest : StorageLayer → StorageLayer → Type 0
  SameRest s t = (t.config ≡ s.config) × (t.master_key ≡ s.master_key) × (t.metadata ≡ s.metadata)

  pub put_chunks-SameRest :
      (cs : List Chunk) (s : StorageLayer)
      → (put_chunks cipher wire dht nonce s cs).0 ≡ none
      → SameRest s (put_chunks cipher wire dht nonce s cs).1
  unfolding put_chunks
  put_chunks-SameRest [] s h = (refl, refl, refl)
  put_chunks-SameRest (c ∷ cs) s h =
      let step = put_chunks_step s c cs h in
      rw step (put_chunks-SameRest cs (caching s c) (ap (λ p. p.0) (sym step) ∙ h))

  put_chunks_before :
      (id : Text) (key : List ℕ) (ds : List (List ℕ)) (i k : ℕ) (s : StorageLayer)
      → k < i
      → (put_chunks cipher wire dht nonce s (encrypt_all cipher wire dht nonce id key i ds)).0
        ≡ none
      → lookup
          (chunk_key id k)
          (put_chunks cipher wire dht nonce s
            (encrypt_all cipher wire dht nonce id key i ds)).1.local_cache
        ≡ lookup (chunk_key id k) s.local_cache
  unfolding put_chunks encrypt_all encrypt
  put_chunks_before id key [] i k s below h = refl
  put_chunks_before id key (d ∷ ds) i k s below h =
      let c = encrypt cipher id i d key (nonce i) in
      let step = put_chunks_step s c (encrypt_all cipher wire dht nonce id key (suc i) ds) h in
      let rest =
        put_chunks_before id key ds (suc i) k (caching s c) (omega (arith, below))
          (ap (λ p. p.0) (sym step) ∙ h) in
      let apart = chunk_key_apart id i k (λ e. omega (arith, e, below)) in
      rw step
        (rest ∙ (lookup-insert (chunk_key id i) (chunk_key id k) c s.local_cache ∙ rw apart refl))

  -- The cache holds the chunks of these pieces, from number `i` on.
  abbrev pub Holds : Dict Text Chunk → Text → List ℕ → ℕ → List (List ℕ) → Type 0
  Holds cache id key i [] = Unit {0}
  Holds cache id key i (d ∷ ds) =
      (lookup (chunk_key id i) cache ≡ some (encrypt cipher id i d key (nonce i)))
      × Holds cache id key (suc i) ds

  pub put_chunks-Holds :
      (id : Text) (key : List ℕ) (ds : List (List ℕ)) (i : ℕ) (s : StorageLayer)
      → (put_chunks cipher wire dht nonce s (encrypt_all cipher wire dht nonce id key i ds)).0
        ≡ none
      → Holds
          (put_chunks cipher wire dht nonce s
            (encrypt_all cipher wire dht nonce id key i ds)).1.local_cache
          id
          key
          i
          ds
  unfolding encrypt_all encrypt
  put_chunks-Holds id key [] i s h = tt
  put_chunks-Holds id key (d ∷ ds) i s h =
      let c = encrypt cipher id i d key (nonce i) in
      let step = put_chunks_step s c (encrypt_all cipher wire dht nonce id key (suc i) ds) h in
      let on = ap (λ p. p.0) (sym step) ∙ h in
      subst (λ p. Holds p.1.local_cache id key i (d ∷ ds)) (sym step)
        (
          put_chunks_before id key ds (suc i) i (caching s c) (omega arith) on
              ∙ lookup-insert_self (chunk_key id i) c s.local_cache,
          put_chunks-Holds id key ds (suc i) (caching s c) on,
        )
