-- ===== src/Connection/Facts.antt =====
-- The server's random and the errors of src/connection.rs.
use tlscap.Prelude.{
  ℕ, ◌<◌, ◌≡◌, ◌≢◌, ◌↔◌, refl, ap, Bool, true, false, Option, none, some, List, [], ◌∷◌, ltb, ◌==◌,
  length, take, drop, inl, inr, Bool-cases, Option-cases, arith,
}
use tlscap.Prelude.{get}
use tlscap.Crypto.{Lawful}
use tlscap.Crypto.{AeadAlgorithm, Crypto}
use tlscap.Keylog
use tlscap.Keylog.{Keylog, SecretLabel, secret_for}
use tlscap.Tls12
use tlscap.Tls12.KeyBlock.{derive_total}
use tlscap.Connection.{
  algorithm_eq, stuck, tls12_algorithms, ConnectionState, Tls12DirectionState, learn,
  set_server_random, failed, auth_failed,
}
use tlscap.Connection.Decrypt.{
  tls12_keys_for, try_tls12, tls12_direction, decrypt_tls12_with, decrypt_tls12, decrypt_tls13,
  decrypt,
}
use tlscap.Connection.Reference.{Attempt-cases}

-- The first random stays: of any two calls, the second learns nothing and changes nothing, and the
-- first returned `true` exactly if there was no random before, and then it is the one that stays.
pub set_server_random_once :
    (first second : List ℕ) (state : ConnectionState)
    → (let (learned, after) = set_server_random first state in
        (set_server_random second after ≡ (false, after))
        × ((learned ≡ true) ↔ (state.server_random ≡ none))
        × (learned ≡ true → after.server_random ≡ some first)
        × (learned ≡ false → after ≡ state))
unfolding set_server_random
set_server_random_once first second state = go state.server_random refl
  where
    go :
        (o : Option (List ℕ))
        → state.server_random ≡ o
        → (let (learned, after) = set_server_random first state in
            (set_server_random second after ≡ (false, after))
            × ((learned ≡ true) ↔ (state.server_random ≡ none))
            × (learned ≡ true → after.server_random ≡ some first)
            × (learned ≡ false → after ≡ state))
    go none e =
        let step : set_server_random first state
            ≡ (true, record state { server_random = some first }) =
          ap (λ (o : Option (List ℕ)). learn first o state) e in
        rw step (refl, (λ h. e, λ h. refl), λ h. refl, λ h. absurd (cc))
    go (some old) e =
        let stays : (random : List ℕ) → set_server_random random state ≡ (false, state) =
          λ random. ap (λ (o : Option (List ℕ)). learn random o state) e in
        rw (stays first)
          (stays second, (λ h. absurd (cc), λ h. absurd (cc)), λ h. absurd (cc), λ h. refl)

module _ (crypto : Crypto) (keylog : Keylog) where
  -- The TLS 1.2 loop never reports `AuthFailed`.
  try_tls12_not_auth :
      (master_secret random server_random : List ℕ) (is_client : Bool) (seq ct : ℕ)
      → (explicit_nonce ciphertext : List ℕ) (as' : List AeadAlgorithm) (dir : Tls12DirectionState)
      → (try_tls12 crypto keylog master_secret random server_random is_client seq ct explicit_nonce
          ciphertext as' dir).0
        ≢ failed auth_failed
  unfolding try_tls12
  try_tls12_not_auth ms r sr is_client seq ct nonce c [] dir h = absurd (cc)
  try_tls12_not_auth ms r sr is_client seq ct nonce c (a ∷ rest) dir h =
      let dir' = (tls12_keys_for crypto keylog ms r sr is_client a dir).1 in
      elim (Option-cases (tls12_keys_for crypto keylog ms r sr is_client a dir).0) [
        | inl e ↦ let h' = rw (e, try_tls12) at h in absurd (cc)
        | inr (keys, e) ↦ elim (Option-cases (Tls12.decrypt_record crypto keys seq ct nonce c)) [
          | inl o ↦
              try_tls12_not_auth ms r sr is_client seq ct nonce c rest dir'
                (rw (e, o, try_tls12) at h)
          | inr (plaintext, o) ↦ let h' = rw (e, o, try_tls12) at h in absurd (cc)
        ]
      ]

  decrypt_tls12_with-auth_failed :
      (master_secret server_random : List ℕ) (is_client : Bool) (ct : ℕ) (body : List ℕ)
      → (state : ConnectionState)
      → (decrypt_tls12_with crypto keylog master_secret server_random is_client ct body state).0
        ≡ failed auth_failed
      → length body < 24
  unfolding decrypt_tls12_with
  decrypt_tls12_with-auth_failed ms sr is_client ct body state h =
      elim (Bool-cases (ltb (length body) 24)) [
        | inl short ↦ ground arith
        | inr long ↦
            let dir = tls12_direction crypto keylog is_client state in
            absurd (
              try_tls12_not_auth ms state.client_random sr is_client dir.seq ct (take 8 body)
                (drop 8 body) tls12_algorithms dir (rw (long, decrypt_tls12_with) at h))
      ]

  decrypt_tls12-auth_failed :
      (is_client : Bool) (ct : ℕ) (body : List ℕ) (state : ConnectionState)
      → (decrypt_tls12 crypto keylog is_client ct body state).0 ≡ failed auth_failed
      → length body < 24
  unfolding decrypt_tls12
  decrypt_tls12-auth_failed is_client ct body state h = elim (Option-cases state.server_random) [
    | inl e ↦ let h' = rw (e, decrypt_tls12) at h in absurd (cc)
    | inr (sr, e) ↦ elim (Bool-cases (length state.client_random == 32)) [
      | inr l ↦ let h' = rw (e, l, decrypt_tls12) at h in absurd (cc)
      | inl l ↦ elim (Option-cases (secret_for keylog state.client_random Keylog.client_random)) [
        | inl k ↦ let h' = rw (e, l, k, decrypt_tls12) at h in absurd (cc)
        | inr (ms, k) ↦
            decrypt_tls12_with-auth_failed ms sr is_client ct body _
              (rw (e, l, k, decrypt_tls12) at h)
      ]
    ]
  ]

  -- `AuthFailed` is only ever reported of a record whose body is shorter than the explicit nonce and the
  -- tag of TLS 1.2: never because an available key did not authenticate the record.
  pub decrypt-auth_failed :
      (is_client : Bool) (ct : ℕ) (body : List ℕ) (state : ConnectionState)
      → (decrypt crypto keylog is_client ct body state).0 ≡ failed auth_failed
      → length body < 24
  unfolding decrypt
  decrypt-auth_failed is_client ct body state h =
      let state' = (decrypt_tls13 crypto keylog is_client body state).1 in
      elim (Attempt-cases (decrypt_tls13 crypto keylog is_client body state).0) [
        | inl (r, o) ↦ let h' = rw (o, decrypt) at h in absurd (cc)
        | inr (inl o) ↦ decrypt_tls12-auth_failed is_client ct body state' (rw (o, decrypt) at h)
        | inr (inr o) ↦ decrypt_tls12-auth_failed is_client ct body state' (rw (o, decrypt) at h)
      ]

  -- With a lawful HMAC, no attempt to decrypt is ever stuck in the PRF.
  module _ (law : Lawful crypto) where
    tls12_keys_for-some :
        (master_secret random server_random : List ℕ) (is_client : Bool) (a : AeadAlgorithm)
        → (dir : Tls12DirectionState)
        → (tls12_keys_for crypto keylog master_secret random server_random is_client a dir).0 ≢ none
    unfolding tls12_keys_for
    tls12_keys_for-some ms r sr is_client a dir h =
        let (keys, d) = derive_total crypto ms r sr a is_client law in
        elim (Option-cases (get algorithm_eq a dir.keys)) [
          | inl miss ↦ let h' = rw (miss, d, tls12_keys_for) at h in absurd (cc)
          | inr (k, hit) ↦ let h' = rw (hit, tls12_keys_for) at h in absurd (cc)
        ]

    try_tls12_not_stuck :
        (master_secret random server_random : List ℕ) (is_client : Bool) (seq ct : ℕ)
        → (explicit_nonce ciphertext : List ℕ) (as' : List AeadAlgorithm)
          (dir : Tls12DirectionState)
        → (try_tls12 crypto keylog master_secret random server_random is_client seq ct
            explicit_nonce ciphertext as' dir).0
          ≢ stuck
    unfolding try_tls12
    try_tls12_not_stuck ms r sr is_client seq ct nonce c [] dir h = absurd (cc)
    try_tls12_not_stuck ms r sr is_client seq ct nonce c (a ∷ rest) dir h =
        let dir' = (tls12_keys_for crypto keylog ms r sr is_client a dir).1 in
        elim (Option-cases (tls12_keys_for crypto keylog ms r sr is_client a dir).0) [
          | inl e ↦ absurd (tls12_keys_for-some ms r sr is_client a dir e)
          | inr (keys, e) ↦ elim (Option-cases (Tls12.decrypt_record crypto keys seq ct nonce c)) [
            | inl o ↦
                try_tls12_not_stuck ms r sr is_client seq ct nonce c rest dir'
                  (rw (e, o, try_tls12) at h)
            | inr (plaintext, o) ↦ let h' = rw (e, o, try_tls12) at h in absurd (cc)
          ]
        ]

    decrypt_tls12_with_not_stuck :
        (master_secret server_random : List ℕ) (is_client : Bool) (ct : ℕ) (body : List ℕ)
        → (state : ConnectionState)
        → (decrypt_tls12_with crypto keylog master_secret server_random is_client ct body state).0
          ≢ stuck
    unfolding decrypt_tls12_with
    decrypt_tls12_with_not_stuck ms sr is_client ct body state h =
        elim (Bool-cases (ltb (length body) 24)) [
          | inl short ↦ let h' = rw (short, decrypt_tls12_with) at h in absurd (cc)
          | inr long ↦
              let dir = tls12_direction crypto keylog is_client state in
              try_tls12_not_stuck ms state.client_random sr is_client dir.seq ct (take 8 body)
                (drop 8 body) tls12_algorithms dir (rw (long, decrypt_tls12_with) at h)
        ]

    decrypt_tls12_not_stuck :
        (is_client : Bool) (ct : ℕ) (body : List ℕ) (state : ConnectionState)
        → (decrypt_tls12 crypto keylog is_client ct body state).0 ≢ stuck
    unfolding decrypt_tls12
    decrypt_tls12_not_stuck is_client ct body state h = elim (Option-cases state.server_random) [
      | inl e ↦ let h' = rw (e, decrypt_tls12) at h in absurd (cc)
      | inr (sr, e) ↦ elim (Bool-cases (length state.client_random == 32)) [
        | inr l ↦ let h' = rw (e, l, decrypt_tls12) at h in absurd (cc)
        | inl l ↦ elim (Option-cases (secret_for keylog state.client_random Keylog.client_random)) [
          | inl k ↦ let h' = rw (e, l, k, decrypt_tls12) at h in absurd (cc)
          | inr (ms, k) ↦
              decrypt_tls12_with_not_stuck ms sr is_client ct body _
                (rw (e, l, k, decrypt_tls12) at h)
        ]
      ]
    ]

    pub decrypt_not_stuck :
        (is_client : Bool) (ct : ℕ) (body : List ℕ) (state : ConnectionState)
        → (decrypt crypto keylog is_client ct body state).0 ≢ stuck
    unfolding decrypt
    decrypt_not_stuck is_client ct body state h =
        let state' = (decrypt_tls13 crypto keylog is_client body state).1 in
        elim (Attempt-cases (decrypt_tls13 crypto keylog is_client body state).0) [
          | inl (r, o) ↦ let h' = rw (o, decrypt) at h in absurd (cc)
          | inr (inl o) ↦ decrypt_tls12_not_stuck is_client ct body state' (rw (o, decrypt) at h)
          | inr (inr o) ↦ decrypt_tls12_not_stuck is_client ct body state' (rw (o, decrypt) at h)
        ]
