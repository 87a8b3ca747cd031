-- ===== src/Storage/Put.antt =====
-- src/storage_layer/object.rs, dht_store.rs and store.rs: how an object is put.
use ess_p2p_rs.Shared.{
  ℕ, suc, ◌+◌, ◌%◌, ◌^◌, Bool, true, false, inl, inr, Option, none, some, List, [], ◌∷◌, ◌++◌, Text,
  bytes, length, ltb, if◌then◌else◌,
}
use ess_p2p_rs.Shared.Order.{text_ord}
use ess_p2p_rs.Shared.Dict.{insert}
use ess_p2p_rs.Ghost.Render.{decimal}
use ess_p2p_rs.Storage.{
  Fallible, Chunk, Cipher, Wire, Dht, encrypt, chunk_id, derive_object_key, chunks, default_erasure,
  ReedSolomon, encode,
}
use ess_p2p_rs.Storage.Object.{StorageResponse, StorageLayer, success, error}

-- `nonce` is the random nonce of the chunk of this number.
module _ (cipher : Cipher) (wire : Wire) (dht : Dht) (nonce : ℕ → List ℕ) where
  abbrev pub put_cached : StorageLayer → Chunk → Fallible Unit → Fallible Unit × StorageLayer
  put_cached s chunk outcome =
      (outcome, record s { local_cache = insert (chunk_id chunk) chunk s.local_cache })

  abbrev pub put_encoded : StorageLayer → Chunk → Fallible (List ℕ) → Fallible Unit × StorageLayer
  put_encoded s chunk (inl e) = (inl e, s)
  put_encoded s chunk (inr value) =
      put_cached s chunk (dht.put_record (chunk_id chunk) value s.config.replication_factor)

  -- The chunk is cached before the network takes it.
  unfoldable pub put_chunk : StorageLayer → Chunk → Fallible Unit × StorageLayer
  unfolding insert
  put_chunk s chunk = put_encoded s chunk (wire.chunk_bytes chunk)

  abbrev pub bytes_of : List Chunk → ℕ
  bytes_of [] = 0
  bytes_of (c ∷ cs) = length c.encrypted_data + bytes_of cs

  -- The loop stops at the first chunk that fails.
  abbrev pub proceed :
      ℕ → Fallible Unit → StorageLayer → Option Text × StorageLayer → Option Text × StorageLayer
  proceed i (inl e) s rest =
      (some (bytes "Failed to store chunk " ++ (decimal i ++ (bytes ": " ++ e))), s)
  proceed i (inr u) s rest = rest

  -- The error at which the loop stops, if any.
  unfoldable pub put_chunks : StorageLayer → List Chunk → Option Text × StorageLayer
  unfolding put_chunk
  put_chunks s [] = (none, s)
  put_chunks s (c ∷ cs) =
      let one = put_chunk s c in proceed c.chunk_index one.0 one.1 (put_chunks one.1 cs)

  abbrev pub stored : List Chunk → Option Text × StorageLayer → StorageResponse × StorageLayer
  stored cs (some e, s) = (error e, s)
  stored cs (none, s) = (
    success,
    record s {
      stats = record s.stats {
        objects_stored = (s.stats.objects_stored + 1) % 2 ^ 64;
        chunks_stored = (s.stats.chunks_stored + length cs) % 2 ^ 64;
        bytes_stored = (s.stats.bytes_stored + bytes_of cs) % 2 ^ 64;
      };
    },
  )

  unfoldable pub store_chunks : StorageLayer → List Chunk → StorageResponse × StorageLayer
  unfolding put_chunks
  store_chunks s cs = stored cs (put_chunks s cs)

  -- The chunks from number `i` on.
  unfoldable pub encrypt_all : Text → List ℕ → ℕ → List (List ℕ) → List Chunk
  unfolding encrypt
  encrypt_all object_id key i [] = []
  encrypt_all object_id key i (d ∷ ds) =
      encrypt cipher object_id i d key (nonce i) ∷ encrypt_all object_id key (suc i) ds

  abbrev pub hashes : List Chunk → List Text
  hashes [] = []
  hashes (c ∷ cs) = c.hash ∷ hashes cs

  abbrev pub not_saved : Text → Text → Text
  not_saved what e = bytes "Metadata persist failed: " ++ (what ++ e)

  -- The entry is in the database even if its flush fails.
  abbrev pub save_inserted :
      StorageLayer → List Chunk → Fallible Unit → StorageResponse × StorageLayer
  save_inserted s cs (inl e) = (error (not_saved (bytes "DB flush error: ") e), s)
  save_inserted s cs (inr u) = store_chunks s cs

  abbrev pub save_value :
      StorageLayer → Text → List Chunk → List ℕ → Fallible Unit → StorageResponse × StorageLayer
  save_value s object_id cs value (inl e) = (error (not_saved (bytes "DB insert error: ") e), s)
  save_value s object_id cs value (inr u) =
      let s' = record s { metadata = insert object_id value s.metadata } in
      save_inserted s' cs (wire.flushes s'.metadata)

  abbrev pub save_encoded :
      StorageLayer → Text → List Chunk → Fallible (List ℕ) → StorageResponse × StorageLayer
  save_encoded s object_id cs (inl e) = (error (not_saved (bytes "Serialization error: ") e), s)
  save_encoded s object_id cs (inr value) =
      save_value s object_id cs value (wire.inserts object_id value)

  -- Saves the metadata, and then the chunks.
  unfoldable pub put_parts :
      StorageLayer → Text → List ℕ → List Chunk → Bool → ℕ → StorageResponse × StorageLayer
  unfolding insert store_chunks
  put_parts s object_id content cs erasure total_shards = save_encoded s object_id cs (
      wire.metadata_bytes (record {
        object_id = object_id;
        total_chunks = length cs;
        chunk_hashes = hashes cs;
        hash = cipher.hex_sha256 content;
        original_size = length content;
        use_erasure_coding = erasure;
        total_shards = total_shards;
      }))

  abbrev pub put_pieces :
      StorageLayer
      → Text
      → List ℕ
      → List ℕ
      → Option (List (List ℕ))
      → Option (StorageResponse × StorageLayer)
  put_pieces s object_id content key none = none
  put_pieces s object_id content key (some pieces) =
      some (put_parts s object_id content (encrypt_all object_id key 0 pieces) false 0)

  unfoldable pub put_object_chunked :
      StorageLayer → Text → List ℕ → List ℕ → Option (StorageResponse × StorageLayer)
  unfolding chunks encrypt_all put_parts
  put_object_chunked s object_id content key =
      put_pieces s object_id content key (chunks s.config.chunk_size content)

  abbrev pub put_shards :
      StorageLayer
      → Text
      → List ℕ
      → List ℕ
      → Option (Fallible (List (List ℕ)))
      → Option (StorageResponse × StorageLayer)
  put_shards s object_id content key none = none
  put_shards s object_id content key (some (inl e)) =
      some (error (bytes "Erasure encode error: " ++ e), s)
  put_shards s object_id content key (some (inr shards)) =
      some (put_parts s object_id content (encrypt_all object_id key 0 shards) true (length shards))

  unfoldable pub put_object_erasure :
      StorageLayer → Text → List ℕ → List ℕ → ReedSolomon → Option (StorageResponse × StorageLayer)
  unfolding encode encrypt_all put_parts
  put_object_erasure s object_id content key code =
      put_shards s object_id content key (encode code default_erasure content)

  abbrev pub put_either :
      StorageLayer
      → Text
      → List ℕ
      → List ℕ
      → Bool
      → Option ReedSolomon
      → Option (StorageResponse × StorageLayer)
  put_either s object_id content key true (some code) =
      put_object_erasure s object_id content key code
  put_either s object_id content key true none = put_object_chunked s object_id content key
  put_either s object_id content key false code = put_object_chunked s object_id content key

  unfoldable pub put_object : StorageLayer → Text → List ℕ → Option (StorageResponse × StorageLayer)
  unfolding put_object_chunked put_object_erasure
  put_object s object_id content =
      let key = derive_object_key cipher s.master_key object_id in
      let done = put_either s object_id content key s.config.use_erasure_coding s.erasure_encoder in
      if ltb s.config.max_object_size (length content)
      then some (error (bytes "Object too large"), s)
      else done
