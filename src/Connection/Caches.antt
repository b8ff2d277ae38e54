-- ===== src/Connection/Caches.antt =====
-- The key caches of src/connection.rs hold what would be derived afresh.
use tlscap.Prelude.{
  ℕ, ◌≡◌, refl, sym, Bool, Option, none, some, List, get, put, Agrees, put-Agrees, inl, inr,
  Option-cases,
}
use tlscap.Crypto.{AeadAlgorithm, Crypto}
use tlscap.Keylog.{Keylog, secret_for}
use tlscap.Tls13.{RecordKeys, derive}
use tlscap.Connection.{
  algorithm_eq, algorithm_eq-Decides, Generation, handshake, application, DirectionState,
  secret_label, key_map, set_key_map, keys_for,
}

-- The two sequence numbers of a direction.
abbrev pub seqs : DirectionState → ℕ × ℕ
seqs dir = (dir.seq_handshake, dir.seq_application)

key_map-set :
    (g : Generation) (m : List (AeadAlgorithm × RecordKeys)) (dir : DirectionState)
    → key_map g (set_key_map g m dir) ≡ m
key_map-set handshake m dir = refl
key_map-set application m dir = refl

seqs-set :
    (g : Generation) (m : List (AeadAlgorithm × RecordKeys)) (dir : DirectionState)
    → seqs (set_key_map g m dir) ≡ seqs dir
seqs-set handshake m dir = refl
seqs-set application m dir = refl

module _ (crypto : Crypto) (keylog : Keylog) (random : List ℕ) (is_client : Bool) where
  abbrev derive_option : AeadAlgorithm → Option (List ℕ) → Option RecordKeys
  derive_option a none = none
  derive_option a (some secret) = derive crypto secret a

  -- The keys that the keylog gives, without a cache.
  abbrev pub key_of : Generation → AeadAlgorithm → Option RecordKeys
  key_of g a = derive_option a (secret_for keylog random (secret_label g is_client))

  -- Every cached key is the one that the keylog gives.
  abbrev pub Valid : DirectionState → Type 0
  Valid dir = (g : Generation) → Agrees algorithm_eq (key_of g) (key_map g dir)

  set-Valid :
      (g : Generation) (a : AeadAlgorithm) (keys : RecordKeys) (dir : DirectionState)
      → Valid dir
      → key_of g a ≡ some keys
      → Valid (set_key_map g (put algorithm_eq a keys (key_map g dir)) dir)
  set-Valid handshake a keys dir v k application = v application
  set-Valid application a keys dir v k handshake = v handshake
  set-Valid handshake a keys dir v k handshake =
      put-Agrees algorithm_eq (key_of handshake) algorithm_eq-Decides a keys dir.keys_handshake k
        (v handshake)
  set-Valid application a keys dir v k application =
      put-Agrees algorithm_eq (key_of application) algorithm_eq-Decides a keys dir.keys_application
        k (v application)

  pub keys_for-Valid :
      (g : Generation) (a : AeadAlgorithm) (dir : DirectionState)
      → Valid dir
      → (let (found, dir') = keys_for crypto g random keylog is_client a dir in
          (found ≡ key_of g a) × Valid dir' × (seqs dir' ≡ seqs dir))
  unfolding keys_for
  keys_for-Valid g a dir v =
      elim (Option-cases (secret_for keylog random (secret_label g is_client))) [
        | inl e ↦ rw (e, keys_for) (refl, v, refl)
        | inr (secret, e) ↦ elim (Option-cases (get algorithm_eq a (key_map g dir))) [
          | inr (keys, hit) ↦
              let k = v g a keys hit in rw (e, keys_for, hit) (sym (rw e at k), v, refl)
          | inl miss ↦ elim (Option-cases (derive crypto secret a)) [
            | inl d ↦ rw (e, keys_for, miss, d) (refl, v, refl)
            | inr (keys, d) ↦
                let k : key_of g a ≡ some keys = rw e d in
                rw (e, keys_for, miss, d) (refl, set-Valid g a keys dir v k, seqs-set g _ dir)
          ]
        ]
      ]
