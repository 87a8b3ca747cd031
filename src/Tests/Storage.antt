-- ===== src/Tests/Storage.antt =====
-- src/storage_layer on one object.
use ess_p2p_rs.Shared.{
  ℕ, ◌≡◌, refl, false, inl, inr, Option, none, some, arith, ◌<◌, ◌*◌, ◌↔◌, List, [], ◌∷◌, bytes,
  length,
}
use ess_p2p_rs.Authority.{default_state}
use ess_p2p_rs.Authority.Manager.{new}
use ess_p2p_rs.Ghost.Render.{decimal}
use ess_p2p_rs.Storage.{
  Fallible, ObjectMetadata, Cipher, Wire, Dht, derive_object_key, chunks, encode, default_erasure,
  ReedSolomon,
}
use ess_p2p_rs.Storage.Object.{StorageLayer, StorageResponse, no_stats, object}
use ess_p2p_rs.Storage.Put.{encrypt_all, put_object}
use ess_p2p_rs.Storage.Get.{load_metadata, get_object}
use ess_p2p_rs.Storage.Chunks.{shard_size, encode_panics}
use ess_p2p_rs.Storage.Roundtrip.{described}
use ess_p2p_rs.Storage.Intact.{get_object_intact}
use ess_p2p_rs.Storage.Recall.{get_object-put_object}

abbrev open_seal : List ℕ → Fallible (List ℕ)
open_seal [] = inl (bytes "aead::Error")
open_seal (tag ∷ plain) = inr plain

abbrev cipher : Cipher
cipher = record {
  seal = λ key nonce plain. 9 ∷ plain;
  unseal = λ key nonce sealed. open_seal sealed;
  sha256 = λ b. b;
  hex_sha256 = λ b. b;
}

abbrev dht : Dht
dht = record { put_record = λ key value replicas. inr tt; get_record = λ key. inr none }

abbrev nonce : ℕ → List ℕ
nonce i = i ∷ []

abbrev empty : StorageLayer
empty = record {
  config = record {
    chunk_size = 2;
    replication_factor = 3;
    use_erasure_coding = false;
    max_object_size = 100;
  };
  master_key = 5 ∷ [];
  authority = new default_state;
  local_cache = [];
  stats = no_stats;
  metadata = [];
  erasure_encoder = none;
}

abbrev content : List ℕ
content = 1 ∷ 2 ∷ 3 ∷ 4 ∷ 5 ∷ []

abbrev pieces : List (List ℕ)
pieces = (1 ∷ 2 ∷ []) ∷ (3 ∷ 4 ∷ []) ∷ (5 ∷ []) ∷ []

abbrev no_wire : Wire
no_wire = record {
  chunk_bytes = λ c. inr c.encrypted_data;
  metadata_bytes = λ m. inr [];
  read_metadata = λ value. inl [];
  inserts = λ key value. inr tt;
  flushes = λ entries. inr tt;
  reads = λ key. inr tt;
}

abbrev written : ObjectMetadata
written = described cipher no_wire dht nonce (bytes "o") content (
    encrypt_all cipher no_wire dht nonce (bytes "o") (derive_object_key cipher (5 ∷ []) (bytes "o"))
      0 pieces)

abbrev wire : Wire
wire = record {
  chunk_bytes = λ c. inr c.encrypted_data;
  metadata_bytes = λ m. inr m.hash;
  read_metadata = λ value. inr written;
  inserts = λ key value. inr tt;
  flushes = λ entries. inr tt;
  reads = λ key. inr tt;
}

abbrev after : Option (StorageResponse × StorageLayer) → StorageLayer
after none = empty
after (some (response, s)) = s

get_object-put_object_example :
    (get_object cipher wire dht nonce
      (after (put_object cipher wire dht nonce empty (bytes "o") content))
      (bytes "o")).0
    ≡ object content
unfolding put_object encrypt_all chunks
get_object-put_object_example =
    get_object-put_object cipher wire dht nonce empty
      (after (put_object cipher wire dht nonce empty (bytes "o") content)) (bytes "o") content
      pieces (λ n plain. refl) (λ value e. refl) refl refl refl refl

get_object_intact_example :
    (m : ObjectMetadata) × (load_metadata cipher wire dht nonce
        (after (put_object cipher wire dht nonce empty (bytes "o") content))
        (bytes "o")
      ≡ inr (some m))
    × (content ≡ m.hash)
unfolding put_object get_object decimal
get_object_intact_example =
    get_object_intact cipher wire dht nonce
      (after (put_object cipher wire dht nonce empty (bytes "o") content)) (bytes "o") content refl

abbrev copies : ReedSolomon
copies = record { encode = λ shards. inr shards; reconstruct = λ shards. inr shards }

encode_panics_example :
    (encode copies default_erasure content ≡ none)
    ↔ (length content < 3 * shard_size default_erasure content)
encode_panics_example = encode_panics copies default_erasure content (ground arith)

-- Five bytes in four shards of two bytes: the last one would start at byte six.
panics_on_five : encode copies default_erasure content ≡ none
unfolding encode
panics_on_five = refl
