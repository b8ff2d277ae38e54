-- ===== src/Connection/Examples.antt =====
-- Runs of src/connection.rs with the toy cryptography.
use tlscap.Prelude.{
  ℕ, ◌<◌, ◌≡◌, ◌↔◌, refl, true, false, none, some, List, [], ◌∷◌, length, replicate,
}
use tlscap.Crypto.Toy.{toy}
use tlscap.Keylog
use tlscap.Keylog.{Keylog, client_traffic_secret_0, secret_for}
use tlscap.Connection.{
  handshake, application, keys_for, new, ConnectionState, set_server_random, failed, auth_failed,
}
use tlscap.Connection.Decrypt.{
  try_algorithms, try_generations, decrypt_tls13, decrypt_tls12_with, decrypt_tls12, decrypt,
  direction, set_direction,
}
use tlscap.Connection.Caches.{seqs, Valid}
use tlscap.Connection.Reference.{first, candidates, advance, decrypt_tls13-first}
use tlscap.Connection.Facts.{set_server_random_once, decrypt-auth_failed}

abbrev random : List ℕ
random = replicate 32 5

abbrev secret : List ℕ
secret = replicate 32 3

abbrev other_random : List ℕ
other_random = replicate 32 6

-- A keylog with the client's application secret and the master secret.
abbrev keylog : Keylog
keylog = record {
  by_client_random =
      (random, (client_traffic_secret_0, secret) ∷ (Keylog.client_random, secret) ∷ []) ∷ [];
  entry_count = 2;
}

abbrev fresh : ConnectionState
fresh = new random

fresh-Valid : Valid toy keylog random true (direction toy keylog true fresh)
fresh-Valid handshake a keys h = absurd (cc)
fresh-Valid application a keys h = absurd (cc)

abbrev short_body : List ℕ
short_body = replicate 20 1

decrypt_tls13-first_example :
    (let dir = direction toy keylog true fresh in
      let (attempt, after) = decrypt_tls13 toy keylog true short_body fresh in
      let dir' = direction toy keylog true after in
      (attempt ≡ first (candidates toy keylog random true short_body (seqs dir)))
      × Valid toy keylog random true dir'
      × (seqs dir' ≡ advance attempt (seqs dir))
      × (after ≡ set_direction toy keylog true dir' fresh))
decrypt_tls13-first_example = decrypt_tls13-first toy keylog true short_body fresh fresh-Valid

set_server_random_once_example :
    (let (learned, after) = set_server_random other_random fresh in
      (set_server_random secret after ≡ (false, after))
      × ((learned ≡ true) ↔ (fresh.server_random ≡ none))
      × (learned ≡ true → after.server_random ≡ some other_random)
      × (learned ≡ false → after ≡ fresh))
set_server_random_once_example = set_server_random_once other_random secret fresh

abbrev started : ConnectionState
started = record fresh { server_random = some other_random }

-- The server has no TLS 1.3 secret, and the body is too short for TLS 1.2.
too_short_fails : (decrypt toy keylog false 0x17 short_body started).0 ≡ failed auth_failed
unfolding decrypt decrypt_tls13 try_generations try_algorithms keys_for secret_for decrypt_tls12
    decrypt_tls12_with
too_short_fails = refl

decrypt-auth_failed_example : length short_body < 24
decrypt-auth_failed_example =
    decrypt-auth_failed toy keylog false 0x17 short_body started too_short_fails
