-- ===== src/Storage/Recall.antt =====
-- src/storage_layer/object.rs: what a put of an object left is what a get answers with.
use ess_p2p_rs.Shared.{
  ℕ, ◌≡◌, refl, sym, ap, ◌∙◌, Bool, true, false, inr, Option, none, some, List, Text, bytes, length,
  ltb, arith, if◌then◌else◌,
}
use mathlib.Core.Path.{subst}
use mathlib.Core.Option.{some-injective}
use ess_p2p_rs.Shared.Order.{text_ord, text_eq, text_eq_iff}
use ess_p2p_rs.Storage.{ObjectMetadata, Cipher, Wire, Dht, derive_object_key, chunks, ReedSolomon}
use ess_p2p_rs.Storage.Chunks.{concat, concat-chunks}
use ess_p2p_rs.Storage.Object.{StorageLayer, StorageResponse, success, error, object}
use ess_p2p_rs.Storage.Put.{
  encrypt_all, put_parts, put_pieces, put_object_chunked, put_either, put_object,
}
use ess_p2p_rs.Storage.Get.{served, gather_chunks, get_object_chunked, load_metadata, get_object}
use ess_p2p_rs.Storage.Roundtrip.{
  described, Left, saved-Left, gather_chunks-concat, length-encrypt_all,
}
use ess_p2p_rs.Storage.Uploads.{is_success}

abbrev only_success : Option (StorageResponse × StorageLayer) → Bool
only_success none = true
only_success (some p) = is_success p.0

module _ (cipher : Cipher) (wire : Wire) (dht : Dht) (nonce : ℕ → List ℕ) where
  served_whole :
      (s : StorageLayer) (m : ObjectMetadata) (broken : Text) (content : List ℕ)
      → m.hash ≡ cipher.hex_sha256 content
      → (served cipher wire dht nonce s m broken (inr content)).0 ≡ object content
  served_whole s m broken content e =
      let same : text_eq (cipher.hex_sha256 content) m.hash ≡ true =
        (text_eq_iff (cipher.hex_sha256 content) m.hash).1 (sym e) in
      rw same refl

  get_object-Left :
      (s t : StorageLayer) (id : Text) (content : List ℕ) (pieces : List (List ℕ))
      → let key = derive_object_key cipher s.master_key id in
        let m =
          described cipher wire dht nonce id content
            (encrypt_all cipher wire dht nonce id key 0 pieces) in
        ((n plain : List ℕ) → cipher.unseal key n (cipher.seal key n plain) ≡ inr plain)
        → ((value : List ℕ) → wire.metadata_bytes m ≡ inr value → wire.read_metadata value ≡ inr m)
        → wire.reads id ≡ inr tt
        → concat pieces ≡ content
        → Left cipher wire dht nonce s t id content key pieces
        → (get_object cipher wire dht nonce t id).0 ≡ object content
  unfolding get_object load_metadata get_object_chunked
  get_object-Left s t id content pieces law read readable whole left =
      let key = derive_object_key cipher s.master_key id in
      let cs = encrypt_all cipher wire dht nonce id key 0 pieces in
      let m = described cipher wire dht nonce id content cs in
      let back = gather_chunks-concat cipher wire dht nonce t id key pieces 0 law left.holds in
      let got : gather_chunks cipher wire dht nonce t id key (length cs) 0 ≡ inr content =
        rw (length-encrypt_all cipher wire dht nonce id key 0 pieces) (back ∙ ap inr whole) in
      let got_with =
        subst
          (λ master.
            gather_chunks cipher wire dht nonce t id (derive_object_key cipher master id)
              (length cs) 0
            ≡ inr content)
          (sym left.same_key) got in
      rw (readable, left.entry, read left.value left.written)
        (rw got_with (served_whole t m (bytes "Object integrity check failed") content refl))

  not_too_large :
      (too_large : Bool) (s t : StorageLayer) (e : Text)
      (outcome : Option (StorageResponse × StorageLayer))
      → (if too_large then some (error e, s) else outcome) ≡ some (success, t)
      → outcome ≡ some (success, t)
  not_too_large true s t e outcome h = absurd (ground (arith, ap (only_success) h))
  not_too_large false s t e outcome h = h

  put_either_plain :
      (s : StorageLayer) (id : Text) (content key : List ℕ) (erasure : Bool)
      (code : Option ReedSolomon)
      → erasure ≡ false
      → put_either cipher wire dht nonce s id content key erasure code
        ≡ put_object_chunked cipher wire dht nonce s id content key
  put_either_plain s id content key true code e = ground (arith, e)
  put_either_plain s id content key false code e = refl

  -- Once an object is put with success, without erasure coding, a get gives its bytes back, if its
  -- content can be cut into chunks, the cipher opens what it seals, bincode reads the metadata back
  -- as it was written, and the database can be read.
  pub get_object-put_object :
      (s t : StorageLayer) (id : Text) (content : List ℕ) (pieces : List (List ℕ))
      → let key = derive_object_key cipher s.master_key id in
        let m =
          described cipher wire dht nonce id content
            (encrypt_all cipher wire dht nonce id key 0 pieces) in
        ((n plain : List ℕ) → cipher.unseal key n (cipher.seal key n plain) ≡ inr plain)
        → ((value : List ℕ) → wire.metadata_bytes m ≡ inr value → wire.read_metadata value ≡ inr m)
        → wire.reads id ≡ inr tt
        → s.config.use_erasure_coding ≡ false
        → chunks s.config.chunk_size content ≡ some pieces
        → put_object cipher wire dht nonce s id content ≡ some (success, t)
        → (get_object cipher wire dht nonce t id).0 ≡ object content
  unfolding put_object put_object_chunked put_parts
  get_object-put_object s t id content pieces law read readable plain cut h =
      let key = derive_object_key cipher s.master_key id in
      let m =
        described cipher wire dht nonce id content
          (encrypt_all cipher wire dht nonce id key 0 pieces) in
      let outcome =
        not_too_large (ltb s.config.max_object_size (length content)) s t (bytes "Object too large")
          (put_either cipher wire dht nonce s id content key s.config.use_erasure_coding
            s.erasure_encoder)
          h in
      let chunked =
        sym (put_either_plain s id content key s.config.use_erasure_coding s.erasure_encoder plain)
        ∙ outcome in
      let parts =
        some-injective
          (put_parts cipher wire dht nonce s id content
            (encrypt_all cipher wire dht nonce id key 0 pieces) false 0)
          (success, t)
          (sym (ap (put_pieces cipher wire dht nonce s id content key) cut) ∙ chunked) in
      get_object-Left s t id content pieces law read readable
        (concat-chunks s.config.chunk_size content pieces cut)
        (saved-Left cipher wire dht nonce s t id content key pieces (wire.metadata_bytes m) refl
          parts)
