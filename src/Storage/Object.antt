-- ===== src/Storage/Object.antt =====
-- src/storage_layer/protocol.rs and mod.rs: the state of the store of objects and its messages.
use ess_p2p_rs.Shared.{
  ℕ, ◌*◌, Bool, false, inl, inr, Option, none, some, List, [], Text, if◌then◌else◌,
}
use ess_p2p_rs.Shared.Order.{text_ord}
use ess_p2p_rs.Shared.Dict.{Dict}
use ess_p2p_rs.Authority.Manager.{AuthorityManager}
use ess_p2p_rs.Storage.{Fallible, Chunk, ReedSolomon}

pub record StorageLayerConfig : Type 0 where
  pub chunk_size : ℕ
  pub replication_factor : ℕ
  pub use_erasure_coding : Bool
  pub max_object_size : ℕ

abbrev pub default_config : StorageLayerConfig
default_config = record {
  chunk_size = 1024 * 1024;
  replication_factor = 3;
  use_erasure_coding = false;
  max_object_size = 1024 * 1024 * 1024;
}

pub record StorageStats : Type 0 where
  pub objects_stored : ℕ
  pub chunks_stored : ℕ
  pub bytes_stored : ℕ
  pub chunks_served : ℕ
  pub bytes_served : ℕ

pub data StorageRequest : Type 0 where
  put : Text → ℕ → ℕ → List ℕ → List ℕ → List Text → StorageRequest
  get : Text → ℕ → StorageRequest

pub data StorageResponse : Type 0 where
  chunk_part : ℕ → List ℕ → StorageResponse
  object : List ℕ → StorageResponse
  success : StorageResponse
  error : Text → StorageResponse

pub record StorageLayer : Type 0 where
  pub config : StorageLayerConfig
  pub master_key : List ℕ
  pub authority : AuthorityManager
  pub local_cache : Dict Text Chunk
  pub stats : StorageStats
  pub metadata : Dict Text (List ℕ)
  pub erasure_encoder : Option ReedSolomon

abbrev pub no_stats : StorageStats
no_stats = record {
  objects_stored = 0;
  chunks_stored = 0;
  bytes_stored = 0;
  chunks_served = 0;
  bytes_served = 0;
}

abbrev pub encoder_of : Fallible ReedSolomon → Option ReedSolomon
encoder_of (inl e) = none
encoder_of (inr code) = some code

-- `code` is what the encoder's constructor gives, and `opened` the entries of the database, if it opens;
-- if not, the constructor panics.
unfoldable pub new_layer :
    StorageLayerConfig
    → List ℕ
    → AuthorityManager
    → Fallible ReedSolomon
    → Fallible (Dict Text (List ℕ))
    → Option StorageLayer
new_layer config master_key authority code (inl e) = none
new_layer config master_key authority code (inr entries) = some (record {
  config = config;
  master_key = master_key;
  authority = authority;
  local_cache = [];
  stats = no_stats;
  metadata = entries;
  erasure_encoder = if config.use_erasure_coding then encoder_of code else none;
})

-- `nonce` is the random nonce of the chunk of this number.
