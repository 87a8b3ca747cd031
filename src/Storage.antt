-- ===== src/Storage.antt =====
-- src/storage_layer: objects that are cut into encrypted chunks, which a table of hashes keeps. AES-GCM,
-- SHA-256, the random nonces, bincode, the Reed-Solomon code and Kademlia are arguments. `inl` is an error
-- with its text, and `none` a panic.
pub mod Object
pub mod Put
pub mod Get
pub mod Requests
pub mod Chunks
pub mod Uploads
pub mod Roundtrip
pub mod Recall
pub mod Intact
use ess_p2p_rs.Shared.{
  ℕ, zero, suc, ◌+◌, ◌-◌, ◌*◌, ◌/◌, ◌%◌, ◌==◌, Bool, true, false, not, ◌⊎◌, inl, inr, Option, none,
  some, List, [], ◌∷◌, ◌++◌, Text, bytes, length, take, drop, ltb, if◌then◌else◌,
}
use ess_p2p_rs.Shared.Order.{text_ord, text_eq}
use ess_p2p_rs.Shared.Dict.{Dict, lookup, insert}
use ess_p2p_rs.Ghost.Render.{decimal}

-- `Result<_, String>`
abbrev pub Fallible : Type 0 → Type 0
Fallible A = Text ⊎ A

pub record Chunk : Type 0 where
  pub object_id : Text
  pub chunk_index : ℕ
  pub encrypted_data : List ℕ
  pub nonce : List ℕ
  pub hash : Text

pub record ObjectMetadata : Type 0 where
  pub object_id : Text
  pub total_chunks : ℕ
  pub chunk_hashes : List Text
  pub hash : Text
  pub original_size : ℕ
  pub use_erasure_coding : Bool
  pub total_shards : ℕ

-- `Aes256Gcm`, SHA-256 and its hexadecimal form.
pub record Cipher : Type 0 where
  pub seal : List ℕ → List ℕ → List ℕ → List ℕ
  pub unseal : List ℕ → List ℕ → List ℕ → Fallible (List ℕ)
  pub sha256 : List ℕ → List ℕ
  pub hex_sha256 : List ℕ → Text

-- bincode of chunks and of metadata, and whether sled inserts, flushes and reads.
pub record Wire : Type 0 where
  pub chunk_bytes : Chunk → Fallible (List ℕ)
  pub metadata_bytes : ObjectMetadata → Fallible (List ℕ)
  pub read_metadata : List ℕ → Fallible ObjectMetadata
  pub inserts : Text → List ℕ → Fallible Unit
  pub flushes : Dict Text (List ℕ) → Fallible Unit
  pub reads : Text → Fallible Unit

-- Kademlia: whether a record is accepted for so many replicas, and what a key finds.
pub record Dht : Type 0 where
  pub put_record : Text → List ℕ → ℕ → Fallible Unit
  pub get_record : Text → Fallible (Option Chunk)

unfoldable pub encrypt : Cipher → Text → ℕ → List ℕ → List ℕ → List ℕ → Chunk
encrypt cipher object_id chunk_index plain_data key nonce =
    let sealed = cipher.seal key nonce plain_data in
    record {
      object_id = object_id;
      chunk_index = chunk_index;
      encrypted_data = sealed;
      nonce = nonce;
      hash = cipher.hex_sha256 sealed;
    }

abbrev pub decryption : Fallible (List ℕ) → Fallible (List ℕ)
decryption (inl e) = inl (bytes "decryption error: " ++ e)
decryption (inr plain) = inr plain

unfoldable pub decrypt : Cipher → Chunk → List ℕ → Fallible (List ℕ)
decrypt cipher chunk key =
    if not (text_eq (cipher.hex_sha256 chunk.encrypted_data) chunk.hash)
    then inl (bytes "Chunk integrity check failed – hash mismatch")
    else decryption (cipher.unseal key chunk.nonce chunk.encrypted_data)

abbrev pub chunk_key : Text → ℕ → Text
chunk_key object_id index = object_id ++ (58 ∷ decimal index)

abbrev pub chunk_id : Chunk → Text
chunk_id chunk = chunk_key chunk.object_id chunk.chunk_index

abbrev pub derive_object_key : Cipher → List ℕ → Text → List ℕ
derive_object_key cipher master_key object_id =
    cipher.sha256 (bytes "ESS-STORAGE-OBJECT-KEY-v1" ++ (master_key ++ object_id))

-- `data.chunks(size)` for a size above zero, of which there are at most as many as bytes.
unfoldable pub chunks_loop : ℕ → ℕ → List ℕ → List (List ℕ)
chunks_loop zero size content = []
chunks_loop (suc fuel) size [] = []
chunks_loop (suc fuel) size (b ∷ content) =
    take size (b ∷ content) ∷ chunks_loop fuel size (drop size (b ∷ content))

-- It panics at size zero.
unfoldable pub chunks : ℕ → List ℕ → Option (List (List ℕ))
unfolding chunks_loop
chunks size content = if size == 0 then none else some (chunks_loop (length content) size content)

pub record ErasureConfig : Type 0 where
  pub data_shards : ℕ
  pub parity_shards : ℕ

abbrev pub default_erasure : ErasureConfig
default_erasure = record { data_shards = 4; parity_shards = 2 }

-- `ReedSolomon`
pub record ReedSolomon : Type 0 where
  pub encode : List (List ℕ) → Fallible (List (List ℕ))
  pub reconstruct : List (Option (List ℕ)) → Fallible (List (Option (List ℕ)))

abbrev pub zeros : ℕ → List ℕ
zeros zero = []
zeros (suc n) = 0 ∷ zeros n

abbrev pub pad : ℕ → List ℕ → List ℕ
pad size block = block ++ zeros (size - length block)

-- The data shards from `i` on, `n` of them; a start past the end of the data panics.
unfoldable pub data_blocks : ℕ → ℕ → ℕ → List ℕ → Option (List (List ℕ))
data_blocks zero i size content = some []
data_blocks (suc n) i size content =
    let rest = data_blocks n (suc i) size content in
    if ltb (length content) (i * size) then none else (elim rest [
      | none ↦ none
      | some blocks ↦ some (pad size (take size (drop (i * size) content)) ∷ blocks)
    ])

abbrev pub empty_shards : ℕ → ℕ → List (List ℕ)
empty_shards zero size = []
empty_shards (suc n) size = zeros size ∷ empty_shards n size

abbrev pub encode_blocks :
    ReedSolomon → ErasureConfig → ℕ → Option (List (List ℕ)) → Option (Fallible (List (List ℕ)))
encode_blocks code config size none = none
encode_blocks code config size (some blocks) =
    some (code.encode (blocks ++ empty_shards config.parity_shards size))

unfoldable pub encode : ReedSolomon → ErasureConfig → List ℕ → Option (Fallible (List (List ℕ)))
unfolding data_blocks
encode code config content =
    let size = ((length content + config.data_shards) - 1) / config.data_shards in
    if config.data_shards == 0
    then none
    else encode_blocks code config size (data_blocks config.data_shards 0 size content)

-- The bytes of these shards, if all are there.
unfoldable pub join : List (Option (List ℕ)) → Fallible (List ℕ)
join [] = inr []
join (none ∷ shards) = inl (bytes "Missing data shard after reconstruction")
join (some s ∷ shards) = elim (join shards) [ inl e ↦ inl e | inr content ↦ inr (s ++ content) ]

abbrev pub cut : ℕ → Fallible (List ℕ) → Fallible (List ℕ)
cut original_size (inl e) = inl e
cut original_size (inr content) = inr (take original_size content)

unfoldable pub decode : ReedSolomon → ErasureConfig → List (Option (List ℕ)) → ℕ → Fallible (List ℕ)
unfolding join
decode code config shards original_size = elim (code.reconstruct shards) [
  | inl e ↦ inl e
  | inr whole ↦ cut original_size (join (take config.data_shards whole))
]
