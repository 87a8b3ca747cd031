-- ===== src/Storage/Get.antt =====
-- src/storage_layer/object.rs, dht_store.rs and store.rs: how an object is got.
use ess_p2p_rs.Shared.{
  ℕ, zero, suc, ◌+◌, ◌%◌, ◌^◌, not, inl, inr, Option, none, some, List, [], ◌∷◌, ◌++◌, Text, bytes,
  length, if◌then◌else◌,
}
use ess_p2p_rs.Shared.Order.{text_ord, text_eq}
use ess_p2p_rs.Shared.Dict.{lookup}
use ess_p2p_rs.Ghost.Render.{decimal}
use ess_p2p_rs.Storage.{
  Fallible, Chunk, ObjectMetadata, Cipher, Wire, Dht, decrypt, chunk_key, derive_object_key,
  default_erasure, ReedSolomon, decode,
}
use ess_p2p_rs.Storage.Object.{StorageResponse, StorageLayer, object, error}

module _ (cipher : Cipher) (wire : Wire) (dht : Dht) (nonce : ℕ → List ℕ) where
  abbrev pub cached_or : Option Chunk → Fallible (Option Chunk) → Fallible (Option Chunk)
  cached_or none found = found
  cached_or (some chunk) found = inr (some chunk)

  unfoldable pub get_chunk : StorageLayer → Text → ℕ → Fallible (Option Chunk)
  unfolding lookup
  get_chunk s object_id index =
      cached_or (lookup (chunk_key object_id index) s.local_cache)
        (dht.get_record (chunk_key object_id index))

  abbrev pub served :
      StorageLayer → ObjectMetadata → Text → Fallible (List ℕ) → StorageResponse × StorageLayer
  served s m broken (inl e) = (error e, s)
  served s m broken (inr content) =
      if not (text_eq (cipher.hex_sha256 content) m.hash) then (error broken, s) else (
        object content,
        record s {
          stats = record s.stats {
            chunks_served = (s.stats.chunks_served + m.total_chunks) % 2 ^ 64;
            bytes_served = (s.stats.bytes_served + length content) % 2 ^ 64;
          };
        },
      )

  abbrev pub numbered : Text → ℕ → Text → Text
  numbered before i after = before ++ (decimal i ++ after)

  abbrev pub read_chunk : ℕ → Fallible (List ℕ) → Fallible (List ℕ)
  read_chunk i (inl e) = inl (numbered (bytes "Decryption error chunk ") i (bytes ": " ++ e))
  read_chunk i (inr plain) = inr plain

  abbrev pub plain_of : ℕ → List ℕ → Fallible (Option Chunk) → Fallible (List ℕ)
  plain_of i key (inl e) = inl (numbered (bytes "DHT error chunk ") i (bytes ": " ++ e))
  plain_of i key (inr none) = inl (numbered (bytes "Chunk ") i (bytes " not found on network"))
  plain_of i key (inr (some chunk)) = read_chunk i (decrypt cipher chunk key)

  abbrev pub gather : Fallible (List ℕ) → Fallible (List ℕ) → Fallible (List ℕ)
  gather (inl e) rest = inl e
  gather (inr plain) (inl e) = inl e
  gather (inr plain) (inr content) = inr (plain ++ content)

  -- The data of `n` chunks from number `i` on.
  unfoldable pub gather_chunks : StorageLayer → Text → List ℕ → ℕ → ℕ → Fallible (List ℕ)
  unfolding get_chunk decrypt
  gather_chunks s object_id key zero i = inr []
  gather_chunks s object_id key (suc n) i =
      gather (plain_of i key (get_chunk s object_id i)) (gather_chunks s object_id key n (suc i))

  unfoldable pub get_object_chunked :
      StorageLayer → Text → ObjectMetadata → List ℕ → StorageResponse × StorageLayer
  unfolding gather_chunks
  get_object_chunked s object_id m key =
      served s m (bytes "Object integrity check failed")
        (gather_chunks s object_id key m.total_chunks 0)

  abbrev pub shard_of : List ℕ → Fallible (Option Chunk) → Option (List ℕ)
  shard_of key (inl e) = none
  shard_of key (inr none) = none
  shard_of key (inr (some chunk)) = elim (decrypt cipher chunk key) [
    | inl e ↦ none
    | inr plain ↦ some plain
  ]

  unfoldable pub gather_shards : StorageLayer → Text → List ℕ → ℕ → ℕ → List (Option (List ℕ))
  unfolding get_chunk decrypt
  gather_shards s object_id key zero i = []
  gather_shards s object_id key (suc n) i =
      shard_of key (get_chunk s object_id i) ∷ gather_shards s object_id key n (suc i)

  abbrev pub decoded : Fallible (List ℕ) → Fallible (List ℕ)
  decoded (inl e) = inl (bytes "Erasure decoding failed: " ++ e)
  decoded (inr content) = inr content

  unfoldable pub get_object_erasure :
      StorageLayer
      → Text
      → ObjectMetadata
      → List ℕ
      → Option ReedSolomon
      → StorageResponse × StorageLayer
  unfolding gather_shards decode
  get_object_erasure s object_id m key none = (error (bytes "Erasure decoder not configured"), s)
  get_object_erasure s object_id m key (some code) =
      served s m (bytes "Erasure object integrity check failed") (
        decoded (
          decode code default_erasure (gather_shards s object_id key m.total_shards 0)
            m.original_size))

  abbrev pub get_with :
      StorageLayer → Text → Fallible (Option ObjectMetadata) → StorageResponse × StorageLayer
  get_with s object_id (inl e) = (error (bytes "Failed to load metadata: " ++ e), s)
  get_with s object_id (inr none) = (error (bytes "Metadata not found in local DB"), s)
  get_with s object_id (inr (some m)) =
      let key = derive_object_key cipher s.master_key object_id in
      if m.use_erasure_coding
      then get_object_erasure s object_id m key s.erasure_encoder
      else get_object_chunked s object_id m key

  abbrev pub loaded : Fallible ObjectMetadata → Fallible (Option ObjectMetadata)
  loaded (inl e) = inl (bytes "Deserialization error: " ++ e)
  loaded (inr m) = inr (some m)

  abbrev pub read_entry : Option (List ℕ) → Fallible (Option ObjectMetadata)
  read_entry none = inr none
  read_entry (some value) = loaded (wire.read_metadata value)

  abbrev pub on_read : Fallible Unit → Option (List ℕ) → Fallible (Option ObjectMetadata)
  on_read (inl e) entry = inl (bytes "DB read error: " ++ e)
  on_read (inr u) entry = read_entry entry

  unfoldable pub load_metadata : StorageLayer → Text → Fallible (Option ObjectMetadata)
  unfolding lookup
  load_metadata s object_id = on_read (wire.reads object_id) (lookup object_id s.metadata)

  unfoldable pub get_object : StorageLayer → Text → StorageResponse × StorageLayer
  unfolding load_metadata get_object_chunked get_object_erasure
  get_object s object_id = get_with s object_id (load_metadata s object_id)
