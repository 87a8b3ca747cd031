-- ===== src/Storage/Roundtrip.antt =====
-- src/storage_layer/object.rs: an object that was put is got back.
use ess_p2p_rs.Shared.{
  ℕ, suc, ◌≡◌, refl, sym, ap, ◌∙◌, false, inl, inr, Option, none, some, List, [], ◌∷◌, Text, length,
  arith,
}
use ess_p2p_rs.Shared.Order.{text_ord}
use ess_p2p_rs.Shared.Dict.{lookup, insert, lookup-insert_self}
use ess_p2p_rs.Storage.{Fallible, Chunk, ObjectMetadata, Cipher, Wire, Dht}
use ess_p2p_rs.Storage.Chunks.{concat, decrypt-encrypt}
use ess_p2p_rs.Storage.Object.{StorageLayer, StorageResponse, success}
use ess_p2p_rs.Storage.Put.{
  put_chunks, stored, store_chunks, encrypt_all, hashes, save_encoded, save_value, save_inserted,
}
use ess_p2p_rs.Storage.Get.{get_chunk, read_chunk, gather, gather_chunks}
use ess_p2p_rs.Storage.Uploads.{is_success, SameRest, put_chunks-SameRest, Holds, put_chunks-Holds}

module _ (cipher : Cipher) (wire : Wire) (dht : Dht) (nonce : ℕ → List ℕ) where
  pub gather_chunks-concat :
      (s : StorageLayer) (id : Text) (key : List ℕ) (ds : List (List ℕ)) (i : ℕ)
      → ((n plain : List ℕ) → cipher.unseal key n (cipher.seal key n plain) ≡ inr plain)
      → Holds cipher wire dht nonce s.local_cache id key i ds
      → gather_chunks cipher wire dht nonce s id key (length ds) i ≡ inr (concat ds)
  unfolding gather_chunks get_chunk
  gather_chunks-concat s id key [] i law held = refl
  gather_chunks-concat s id key (d ∷ ds) i law held =
      let back = decrypt-encrypt cipher id i d key (nonce i) (law (nonce i) d) in
      rw (held.0, gather_chunks-concat s id key ds (suc i) law held.1)
        (ap
          (λ r.
            gather cipher wire dht nonce (read_chunk cipher wire dht nonce i r) (inr (concat ds)))
          back)

  pub length-encrypt_all :
      (id : Text) (key : List ℕ) (i : ℕ) (ds : List (List ℕ))
      → length (encrypt_all cipher wire dht nonce id key i ds) ≡ length ds
  unfolding encrypt_all
  length-encrypt_all id key i [] = refl
  length-encrypt_all id key i (d ∷ ds) = ap suc (length-encrypt_all id key (suc i) ds)

  -- The store of the chunks succeeds if the loop runs to its end, and then keeps what it left.
  stored_success :
      (cs : List Chunk) (p : Option Text × StorageLayer) (t : StorageLayer)
      → stored cipher wire dht nonce cs p ≡ (success, t)
      → (p.0 ≡ none) × SameRest cipher wire dht nonce p.1 t × (t.local_cache ≡ p.1.local_cache)
  stored_success cs (some e, s) t h = absurd (ground (arith, ap (λ r. is_success r.0) h))
  stored_success cs (none, s) t h =
      let e = ap (λ (r : StorageResponse × StorageLayer). r.1) h in
      (
        refl,
        (
          sym (ap (λ (r : StorageLayer). r.config) e),
          sym (ap (λ (r : StorageLayer). r.master_key) e),
          sym (ap (λ (r : StorageLayer). r.metadata) e),
        ),
        sym (ap (λ (r : StorageLayer). r.local_cache) e),
      )

  abbrev pub described : Text → List ℕ → List Chunk → ObjectMetadata
  described id content cs = record {
    object_id = id;
    total_chunks = length cs;
    chunk_hashes = hashes cipher wire dht nonce cs;
    hash = cipher.hex_sha256 content;
    original_size = length content;
    use_erasure_coding = false;
    total_shards = 0;
  }

  -- What a put of the pieces that succeeds leaves.
  pub record Left (s t : StorageLayer) (id : Text) (content key : List ℕ) (ds : List (List ℕ))
      : Type 0 where
    pub value : List ℕ
    pub written :
        wire.metadata_bytes (described id content (encrypt_all cipher wire dht nonce id key 0 ds))
        ≡ inr value
    pub entry : lookup id t.metadata ≡ some value
    pub same_key : t.master_key ≡ s.master_key
    pub holds : Holds cipher wire dht nonce t.local_cache id key 0 ds

  -- The chunks are stored only after the entry is inserted and flushed.
  saved_success :
      (s t : StorageLayer) (id : Text) (cs : List Chunk) (value : List ℕ)
      (inserted flushed : Fallible Unit)
      → let s' = record s { metadata = insert id value s.metadata } in
        wire.flushes s'.metadata ≡ flushed
        → save_value cipher wire dht nonce s id cs value inserted ≡ (success, t)
        → store_chunks cipher wire dht nonce s' cs ≡ (success, t)
  saved_success s t id cs value (inl e) flushed read h =
      absurd (ground (arith, ap (λ r. is_success r.0) h))
  saved_success s t id cs value (inr u) (inl e) read h = absurd (
      ground (
        arith,
        ap (λ r. is_success r.0)
            (ap
                (save_inserted cipher wire dht nonce
                  (record s { metadata = insert id value s.metadata }) cs)
                (sym read)
              ∙ h),
      ))
  saved_success s t id cs value (inr u) (inr v) read h =
      ap
        (save_inserted cipher wire dht nonce (record s { metadata = insert id value s.metadata })
          cs)
        (sym read)
      ∙ h

  pub saved-Left :
      (s t : StorageLayer) (id : Text) (content key : List ℕ) (ds : List (List ℕ))
      (o : Fallible (List ℕ))
      → wire.metadata_bytes (described id content (encrypt_all cipher wire dht nonce id key 0 ds))
        ≡ o
      → save_encoded cipher wire dht nonce s id (encrypt_all cipher wire dht nonce id key 0 ds) o
        ≡ (success, t)
      → Left s t id content key ds
  unfolding store_chunks
  saved-Left s t id content key ds (inl e) written h =
      absurd (ground (arith, ap (λ r. is_success r.0) h))
  saved-Left s t id content key ds (inr value) written h =
      let cs = encrypt_all cipher wire dht nonce id key 0 ds in
      let start = record s { metadata = insert id value s.metadata } in
      let p = put_chunks cipher wire dht nonce start cs in
      let stored_all =
        saved_success s t id cs value (wire.inserts id value) (wire.flushes start.metadata) refl
          h in
      let (fine, rest, cache) = stored_success cs p t stored_all in
      let same = put_chunks-SameRest cipher wire dht nonce cs start fine in
      record {
        value = value;
        written = written;
        entry = ap (lookup id) (rest.2 ∙ same.2) ∙ lookup-insert_self id value s.metadata;
        same_key = rest.1 ∙ same.1;
        holds = rw cache (put_chunks-Holds cipher wire dht nonce id key ds 0 start fine);
      }
