-- ===== src/Storage/Intact.antt =====
-- src/storage_layer/object.rs: what a get of an object answers, whatever the network gives it.
use ess_p2p_rs.Shared.{
  ℕ, ◌≡◌, refl, sym, ap, ◌∙◌, inl, inr, Option, none, some, List, Text, bytes, arith, Bool-cases,
}
use ess_p2p_rs.Shared.Order.{text_ord, text_eq, text_eq_iff}
use ess_p2p_rs.Storage.{
  Fallible, ObjectMetadata, Cipher, Wire, Dht, derive_object_key, ReedSolomon, decode,
  default_erasure,
}
use ess_p2p_rs.Storage.Object.{StorageLayer, StorageResponse, chunk_part, success, error, object}
use ess_p2p_rs.Storage.Get.{
  served, gather_chunks, gather_shards, decoded, get_object_chunked, get_object_erasure, get_with,
  load_metadata, get_object,
}

-- The bytes of an answer that is an object.
abbrev answer : StorageResponse → Option (List ℕ)
answer (object content) = some content
answer (chunk_part i content) = none
answer success = none
answer (error e) = none

module _ (cipher : Cipher) (wire : Wire) (dht : Dht) (nonce : ℕ → List ℕ) where
  served_intact :
      (s : StorageLayer) (m : ObjectMetadata) (broken : Text) (r : Fallible (List ℕ))
      (content : List ℕ)
      → answer (served cipher wire dht nonce s m broken r).0 ≡ some content
      → cipher.hex_sha256 content ≡ m.hash
  served_intact s m broken (inl e) content h = ground (arith, h)
  served_intact s m broken (inr whole) content h =
      elim (Bool-cases (text_eq (cipher.hex_sha256 whole) m.hash)) [
        | inl same ↦
            let e : whole ≡ content = ground (arith, h, same) in
            ap cipher.hex_sha256 (sym e) ∙ (text_eq_iff (cipher.hex_sha256 whole) m.hash).0 same
        | inr differ ↦ ground (arith, h, differ)
      ]

  got_erasure_intact :
      (s : StorageLayer) (id : Text) (m : ObjectMetadata) (key : List ℕ) (code : Option ReedSolomon)
      (content : List ℕ)
      → answer (get_object_erasure cipher wire dht nonce s id m key code).0 ≡ some content
      → cipher.hex_sha256 content ≡ m.hash
  unfolding get_object_erasure
  got_erasure_intact s id m key none content h = ground (arith, h)
  got_erasure_intact s id m key (some code) content h =
      served_intact s m (bytes "Erasure object integrity check failed")
        (decoded cipher wire dht nonce (
          decode code default_erasure
            (gather_shards cipher wire dht nonce s id key m.total_shards 0) m.original_size))
        content h

  got_with_intact :
      (s : StorageLayer) (id : Text) (o : Fallible (Option ObjectMetadata)) (content : List ℕ)
      → answer (get_with cipher wire dht nonce s id o).0 ≡ some content
      → (m : ObjectMetadata) × (o ≡ inr (some m)) × (cipher.hex_sha256 content ≡ m.hash)
  unfolding get_object_chunked get_object_erasure
  got_with_intact s id (inl e) content h = ground (arith, h)
  got_with_intact s id (inr none) content h = ground (arith, h)
  got_with_intact s id (inr (some m)) content h =
      let key = derive_object_key cipher s.master_key id in
      (
        m,
        refl,
        elim (Bool-cases m.use_erasure_coding) [
          | inl erasure ↦ got_erasure_intact s id m key s.erasure_encoder content (rw erasure at h)
          | inr plain ↦
              served_intact s m (bytes "Object integrity check failed")
                (gather_chunks cipher wire dht nonce s id key m.total_chunks 0) content
                (rw plain at h)
        ],
      )

  -- Whatever the network and the cache hold, an object that a get answers has the digest that its
  -- stored metadata names.
  pub get_object_intact :
      (s : StorageLayer) (id : Text) (content : List ℕ)
      → (get_object cipher wire dht nonce s id).0 ≡ object content
      → (m : ObjectMetadata) × (load_metadata cipher wire dht nonce s id ≡ inr (some m))
        × (cipher.hex_sha256 content ≡ m.hash)
  unfolding get_object
  get_object_intact s id content h =
      got_with_intact s id (load_metadata cipher wire dht nonce s id) content (ap answer h)
