-- ===== src/Keylog/Examples.antt =====
-- Runs of src/keylog.rs, with a decoder that takes every word as it is.
use tlscap.Prelude.{ℕ, ◌≡◌, Option, some, List, [], ◌∷◌, length}
use tlscap.Keylog.{client_random, parse, secret_for, lines}
use tlscap.Keylog.Parse.{entries, last_secret, parse-last_secret}

abbrev decode : List ℕ → Option (List ℕ)
decode word = some word

abbrev random : List ℕ
random = b'a' ∷ b'b' ∷ []

-- "CLIENT_RANDOM ab 1\r\nCLIENT_RANDOM ab 2\n"
abbrev line : ℕ → List ℕ → List ℕ
line digit rest =
    b'C' ∷ b'L' ∷ b'I' ∷ b'E' ∷ b'N' ∷ b'T' ∷ b'_' ∷ b'R' ∷ b'A' ∷ b'N' ∷ b'D' ∷ b'O' ∷ b'M' ∷ b' '
    ∷ b'a' ∷ b'b' ∷ b' ' ∷ digit ∷ rest

abbrev contents : List ℕ
contents = line b'1' (13 ∷ 10 ∷ line b'2' (10 ∷ []))

parse-last_secret_example :
    (secret_for (parse decode contents) random client_random
      ≡ last_secret random client_random (entries decode (lines contents)))
    × ((parse decode contents).entry_count ≡ length (entries decode (lines contents)))
parse-last_secret_example = parse-last_secret decode contents random client_random
