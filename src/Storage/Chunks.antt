-- ===== src/Storage/Chunks.antt =====
-- src/storage_layer: chunks put together again, and the keys and contents of the chunks of an object.
use ess_p2p_rs.Shared.{
  ℕ, zero, suc, ◌+◌, ◌-◌, ◌*◌, ◌/◌, ◌≡◌, ◌≢◌, ◌≤◌, ◌<◌, ◌==◌, ◌↔◌, refl, ap, ◌∙◌, true, false, inl,
  inr, Option, none, some, List, [], ◌∷◌, ◌++◌, Text, length, length-drop, take, drop,
  take-append-drop, ltb, arith, Bool-cases, Option-cases,
}
use ess_p2p_rs.Shared.Order.{text_ord, text_eq, text_eq_iff}
use ess_p2p_rs.Ghost.Render.{decimal, decimal_injective}
use ess_p2p_rs.Storage.{
  Cipher, encrypt, decrypt, chunk_key, chunks_loop, chunks, data_blocks, ErasureConfig, ReedSolomon,
  encode, encode_blocks,
}

abbrev pub concat : List (List ℕ) → List ℕ
concat [] = []
concat (d ∷ ds) = d ++ concat ds

concat-chunks_loop :
    (fuel size : ℕ) (content : List ℕ)
    → 0 < size
    → length content ≤ fuel
    → concat (chunks_loop fuel size content) ≡ content
unfolding chunks_loop
concat-chunks_loop zero size [] pos le = refl
concat-chunks_loop zero size (b ∷ content) pos le = ground (arith, le)
concat-chunks_loop (suc fuel) size [] pos le = refl
concat-chunks_loop (suc fuel) size (b ∷ content) pos le =
    let shorter : length (drop size (b ∷ content)) ≤ fuel =
      omega (arith, length-drop size (b ∷ content), pos, le) in
    ap (λ r. take size (b ∷ content) ++ r)
      (concat-chunks_loop fuel size (drop size (b ∷ content)) pos shorter)
    ∙ take-append-drop size (b ∷ content)

-- The chunks of some data hold it all, in order.
pub concat-chunks :
    (size : ℕ) (content : List ℕ) (pieces : List (List ℕ))
    → chunks size content ≡ some pieces
    → concat pieces ≡ content
unfolding chunks
concat-chunks size content pieces e = elim (Bool-cases (size == 0)) [
  | inl empty ↦ ground (arith, e, empty)
  | inr some_size ↦
      let same : chunks_loop (length content) size content ≡ pieces =
        ground (arith, e, some_size) in
      rw same at
        (concat-chunks_loop (length content) size content (ground (arith, some_size)) (omega arith))
]

text_eq-append_left : (x s t : Text) → text_eq (x ++ s) (x ++ t) ≡ text_eq s t
text_eq-append_left [] s t = refl
text_eq-append_left (a ∷ x) s t =
    let same : (a == a) ≡ true = ground arith in rw same (text_eq-append_left x s t)

-- Chunks of one object with different numbers have different keys.
pub chunk_key_apart :
    (object_id : Text) (i j : ℕ)
    → i ≢ j
    → text_eq (chunk_key object_id i) (chunk_key object_id j) ≡ false
chunk_key_apart object_id i j apart =
    let cut = text_eq-append_left object_id (58 ∷ decimal i) (58 ∷ decimal j) in
    elim (Bool-cases (text_eq (decimal i) (decimal j))) [
      | inl same ↦
          absurd (apart (decimal_injective i j ((text_eq_iff (decimal i) (decimal j)).0 same)))
      | inr differ ↦ cut ∙ differ
    ]

-- What is encrypted can be decrypted with its key.
pub decrypt-encrypt :
    (cipher : Cipher) (object_id : Text) (i : ℕ) (plain key nonce : List ℕ)
    → cipher.unseal key nonce (cipher.seal key nonce plain) ≡ inr plain
    → decrypt cipher (encrypt cipher object_id i plain key nonce) key ≡ inr plain
unfolding decrypt encrypt
decrypt-encrypt cipher object_id i plain key nonce law =
    let h = cipher.hex_sha256 (cipher.seal key nonce plain) in
    let same : text_eq h h ≡ true = (text_eq_iff h h).1 refl in rw (same, law) refl

-- A data shard that would start past the end of the data makes the encoder panic.
pub data_blocks_panic :
    (n i size : ℕ) (content : List ℕ) (j : ℕ)
    → i ≤ j
    → j < i + n
    → length content < j * size
    → data_blocks n i size content ≡ none
unfolding data_blocks
data_blocks_panic zero i size content j low high past = ground (arith, low, high)
data_blocks_panic (suc n) i size content j low high past = elim (Bool-cases (i == j)) [
  | inl here ↦
      let e : i ≡ j = ground (arith, here) in
      let over : ltb (length content) (i * size) ≡ true = rw e (ground (arith, past)) in
      rw over refl
  | inr later ↦
      let rest =
        data_blocks_panic n (suc i) size content j (ground (arith, low, later))
          (omega (arith, high)) past in
      elim (Bool-cases (ltb (length content) (i * size))) [
        | inl over ↦ rw over refl
        | inr within ↦ rw (within, rest) refl
      ]
]

mul_le_mul_right : (j k size : ℕ) → j ≤ k → j * size ≤ k * size
mul_le_mul_right zero k size le = omega arith
mul_le_mul_right (suc j) zero size le = ground (arith, le)
mul_le_mul_right (suc j) (suc k) size le =
    let rest = mul_le_mul_right j k size (omega (arith, le)) in omega (arith, rest)

data_blocks_past :
    (n i size last : ℕ) (content : List ℕ)
    → i + n ≤ suc last
    → data_blocks n i size content ≡ none
    → length content < last * size
unfolding data_blocks
data_blocks_past zero i size last content le e = ground (arith, e)
data_blocks_past (suc n) i size last content le e =
    elim (Bool-cases (ltb (length content) (i * size))) [
      | inl over ↦
          let up = mul_le_mul_right i last size (omega (arith, le)) in
          let past : length content < i * size = ground (arith, over) in omega (arith, up, past)
      | inr within ↦ elim (Option-cases (data_blocks n (suc i) size content)) [
        | inl later ↦ data_blocks_past n (suc i) size last content (omega (arith, le)) later
        | inr (blocks, found) ↦ ground (arith, e, within, found)
      ]
    ]

abbrev pub shard_size : ErasureConfig → List ℕ → ℕ
shard_size config content = ((length content + config.data_shards) - 1) / config.data_shards

no_blocks :
    (code : ReedSolomon) (config : ErasureConfig) (size : ℕ) (blocks : Option (List (List ℕ)))
    → encode_blocks code config size blocks ≡ none
    → blocks ≡ none
no_blocks code config size none e = refl
no_blocks code config size (some blocks) e = ground (arith, e)

-- With a data shard at least, the erasure encoder panics exactly if the last data shard would start
-- past the end of the content.
pub encode_panics :
    (code : ReedSolomon) (config : ErasureConfig) (content : List ℕ)
    → 0 < config.data_shards
    → (encode code config content ≡ none)
      ↔ (length content < (config.data_shards - 1) * shard_size config content)
unfolding encode
encode_panics code config content pos =
    let size = shard_size config content in
    let blocks = data_blocks config.data_shards 0 size content in
    let some_shards : (config.data_shards == 0) ≡ false = ground (arith, pos) in
    (
      λ e.
          let none_left = no_blocks code config size blocks (rw some_shards at e) in
          data_blocks_past config.data_shards 0 size (config.data_shards - 1) content
            (omega (arith, pos)) none_left,
      λ past.
          let none_left =
            data_blocks_panic config.data_shards 0 size content (config.data_shards - 1)
              (omega arith) (omega (arith, pos)) past in
          rw some_shards (rw none_left refl),
    )
