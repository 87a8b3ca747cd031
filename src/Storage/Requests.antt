-- ===== src/Storage/Requests.antt =====
-- src/storage_layer/mod.rs: the handler of requests.
use ess_p2p_rs.Shared.{ℕ, not, Option, none, some, List, Text, bytes, if◌then◌else◌}
use ess_p2p_rs.Shared.Order.{text_ord}
use ess_p2p_rs.Authority.{connect}
use ess_p2p_rs.Authority.Manager.{is_allowed}
use ess_p2p_rs.Storage.{Cipher, Wire, Dht}
use ess_p2p_rs.Storage.Object.{StorageRequest, StorageResponse, StorageLayer, put, get, error}
use ess_p2p_rs.Storage.Put.{put_object}
use ess_p2p_rs.Storage.Get.{get_object}

module _ (cipher : Cipher) (wire : Wire) (dht : Dht) (nonce : ℕ → List ℕ) where
  abbrev pub serve : StorageLayer → StorageRequest → Option (StorageResponse × StorageLayer)
  serve s (put object_id chunk_index total_chunks content signature nodes) =
      put_object cipher wire dht nonce s object_id content
  serve s (get object_id chunk_index) = some (get_object cipher wire dht nonce s object_id)

  -- `parsed` is what `parse::<PeerId>` makes of the sender.
  unfoldable pub handle_request :
      StorageLayer → StorageRequest → Option Text → ℕ → Option (StorageResponse × StorageLayer)
  unfolding put_object get_object is_allowed
  handle_request s request none now = serve s request
  handle_request s request (some pid) now =
      if not (is_allowed s.authority pid connect now)
      then some (error (bytes "Access denied"), s)
      else serve s request
