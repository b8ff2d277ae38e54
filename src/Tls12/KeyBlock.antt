-- ===== src/Tls12/KeyBlock.antt =====
-- `RecordKeys::derive` of src/tls12.rs against the key block of RFC 5246 §6.3.
use tlscap.Prelude.{
  ℕ, ◌+◌, ◌-◌, ◌*◌, ◌≤◌, ◌≡◌, refl, sym, ap, ap₂, ◌∙◌, Bool, true, false, some, List, ◌++◌, length,
  length-take, length-drop, take-all, take-append-drop, drop-take, take-take, take, drop, slice,
  arith, min,
}
use tlscap.Crypto.{AeadAlgorithm, Crypto, Lawful}
use tlscap.Tls13.{key_len}
use tlscap.Tls12.{
  RecordKeys, salt_len, total_len, slice_keys, key_block, derive, prf_hash, key_expansion,
  map_option,
}
use tlscap.Tls12.Prf.{p_hash-total, blocks, p_hash-blocks}

-- A slice after what comes before it.
take-slice : (a b : ℕ) (xs : List ℕ) → a ≤ b → take a xs ++ slice xs a b ≡ take b xs
take-slice a b xs le =
    let e : min a b ≡ a = omega arith in
    ap₂ ◌++◌ (ap (λ (k : ℕ). take k xs) (sym e) ∙ sym (take-take a b xs)) (sym (drop-take a b xs))
    ∙ take-append-drop a (take b xs)

length-slice : (a b : ℕ) (xs : List ℕ) → a ≤ b → b ≤ length xs → length (slice xs a b) ≡ b - a
length-slice a b xs le le' = omega (arith, length-take (b - a) (drop a xs), length-drop a xs)

-- Four neighbouring slices are the whole.
four_slices :
    (a b c d : ℕ) (xs : List ℕ)
    → a ≤ b
    → b ≤ c
    → c ≤ d
    → length xs ≡ d
    → slice xs 0 a ++ slice xs a b ++ slice xs b c ++ slice xs c d ≡ xs
four_slices a b c d xs ab bc cd l =
    let first : a - 0 ≡ a = omega arith in
    ap (λ (k : ℕ). take k xs ++ slice xs a b ++ slice xs b c ++ slice xs c d) first
    ∙ ap (λ (ys : List ℕ). ys ++ slice xs b c ++ slice xs c d) (take-slice a b xs ab)
    ∙ ap (λ (ys : List ℕ). ys ++ slice xs c d) (take-slice b c xs bc)
    ∙ take-slice c d xs cd
    ∙ take-all d xs (omega arith)

-- Keys for both directions, with the lengths that the AEAD and the nonce want.
pub HaveLengths : AeadAlgorithm → RecordKeys → Type 0
HaveLengths algorithm keys =
    (keys.algorithm ≡ algorithm)
    × (length keys.key ≡ key_len algorithm)
    × (length keys.salt ≡ salt_len)

slice_keys-HaveLengths :
    (algorithm : AeadAlgorithm) (is_client : Bool) (bytes : List ℕ)
    → length bytes ≡ total_len algorithm
    → HaveLengths algorithm (slice_keys algorithm is_client bytes)
unfolding slice_keys HaveLengths
slice_keys-HaveLengths algorithm true bytes l =
    let n = key_len algorithm in
    (
      refl,
      length-slice 0 n bytes (omega arith) (omega arith) ∙ omega arith,
      length-slice (2 * n) (2 * n + salt_len) bytes (omega arith) (omega arith) ∙ omega arith,
    )
slice_keys-HaveLengths algorithm false bytes l =
    let n = key_len algorithm in
    (
      refl,
      length-slice n (2 * n) bytes (omega arith) (omega arith) ∙ omega arith,
      length-slice (2 * n + salt_len) (2 * n + 2 * salt_len) bytes (omega arith) (omega arith)
          ∙ omega arith,
    )

-- With a lawful HMAC, `derive` always returns, for the algorithm asked for and with its lengths. The
-- client's key, the server's key, the client's salt and the server's salt are in this order the first
-- bytes of the blocks of P_hash, as many of them as are enough, over the label, the server's random and
-- the client's random.
pub derive-blocks :
    (crypto : Crypto) (master_secret client_random server_random : List ℕ)
    (algorithm : AeadAlgorithm)
    → (n : ℕ) → Lawful crypto
    → (let seed = key_expansion ++ server_random ++ client_random in
        let rfc = blocks crypto (prf_hash algorithm) master_secret seed n in
        total_len algorithm ≤ length rfc
        → (client : RecordKeys) × (server : RecordKeys) × (derive crypto master_secret client_random
              server_random algorithm true
            ≡ some client)
          × (derive crypto master_secret client_random server_random algorithm false ≡ some server)
          × HaveLengths algorithm client
          × HaveLengths algorithm server
          × (client.key ++ server.key ++ client.salt ++ server.salt
              ≡ take (total_len algorithm) rfc))
unfolding derive key_block slice_keys
derive-blocks crypto master_secret client_random server_random algorithm n law le =
    let seed = key_expansion ++ server_random ++ client_random in
    let rfc = blocks crypto (prf_hash algorithm) master_secret seed n in
    let bytes = take (total_len algorithm) rfc in
    let k = key_len algorithm in
    let l : length bytes ≡ total_len algorithm =
      omega (arith, length-take (total_len algorithm) rfc) in
    let e =
      p_hash-blocks crypto (prf_hash algorithm) master_secret seed law (total_len algorithm) n le in
    (
      slice_keys algorithm true bytes,
      slice_keys algorithm false bytes,
      ap (map_option (slice_keys algorithm true)) e,
      ap (map_option (slice_keys algorithm false)) e,
      slice_keys-HaveLengths algorithm true bytes l,
      slice_keys-HaveLengths algorithm false bytes l,
      four_slices k (2 * k) (2 * k + salt_len) (2 * k + 2 * salt_len) bytes (omega arith)
          (omega arith) (omega arith) l,
    )

-- `derive` always returns with a lawful HMAC.
pub derive_total :
    (crypto : Crypto) (master_secret client_random server_random : List ℕ)
    (algorithm : AeadAlgorithm)
    → (is_client : Bool) → Lawful crypto
    → (keys : RecordKeys) × (derive crypto master_secret client_random server_random algorithm
          is_client
        ≡ some keys)
unfolding derive key_block
derive_total crypto master_secret client_random server_random algorithm is_client law =
    let seed = key_expansion ++ server_random ++ client_random in
    let (bytes, e, l) =
      p_hash-total crypto (prf_hash algorithm) master_secret seed law (total_len algorithm) in
    (slice_keys algorithm is_client bytes, ap (map_option (slice_keys algorithm is_client)) e)
