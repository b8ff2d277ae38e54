-- ===== src/Keylog.antt =====
-- src/keylog.rs: the secrets of an SSLKEYLOGFILE. A string is a list of code points, and
-- `hex::decode` of the hex crate is a parameter.
pub mod Parse
mod Examples
use tlscap.Prelude.{
  ℕ, zero, suc, ◌+◌, ◌≡◌, refl, Bool, true, false, ◌&&◌, ◌||◌, Option, none, some, List, [], ◌∷◌,
  ◌++◌, leb, ◌==◌, if◌then◌else◌, reverse, bytes_eq, bytes_eq-Decides, Decides, Decides-code, get,
  put,
}

pub data SecretLabel : Type 0 where
  client_random : SecretLabel
  client_handshake_traffic_secret : SecretLabel
  server_handshake_traffic_secret : SecretLabel
  client_traffic_secret_0 : SecretLabel
  server_traffic_secret_0 : SecretLabel
  other : List ℕ → SecretLabel

-- The constructor's number, and the text that it carries.
abbrev label_code : SecretLabel → List ℕ
label_code client_random = 0 ∷ []
label_code client_handshake_traffic_secret = 1 ∷ []
label_code server_handshake_traffic_secret = 2 ∷ []
label_code client_traffic_secret_0 = 3 ∷ []
label_code server_traffic_secret_0 = 4 ∷ []
label_code (other s) = 5 ∷ s

-- The derived `Eq`.
abbrev pub label_eq : SecretLabel → SecretLabel → Bool
label_eq a b = bytes_eq (label_code a) (label_code b)

label_of : List ℕ → SecretLabel
label_of [] = client_random
label_of (n ∷ s) =
    if n == 0
    then client_random
    else if n == 1
    then client_handshake_traffic_secret
    else if n == 2
    then server_handshake_traffic_secret
    else if n == 3
    then client_traffic_secret_0
    else if n == 4
    then server_traffic_secret_0
    else other s

pub label_eq-Decides : Decides label_eq
unfolding label_of
label_eq-Decides = Decides-code bytes_eq label_code label_of bytes_eq-Decides back
  where
    back : (l : SecretLabel) → label_of (label_code l) ≡ l
    back client_random = refl
    back client_handshake_traffic_secret = refl
    back server_handshake_traffic_secret = refl
    back client_traffic_secret_0 = refl
    back server_traffic_secret_0 = refl
    back (other s) = refl

-- `Display` of a label.
abbrev pub label_name : SecretLabel → List ℕ
label_name client_random =
    b'C' ∷ b'L' ∷ b'I' ∷ b'E' ∷ b'N' ∷ b'T' ∷ b'_' ∷ b'R' ∷ b'A' ∷ b'N' ∷ b'D' ∷ b'O' ∷ b'M' ∷ []
label_name client_handshake_traffic_secret =
    b'C' ∷ b'L' ∷ b'I' ∷ b'E' ∷ b'N' ∷ b'T' ∷ b'_' ∷ b'H' ∷ b'A' ∷ b'N' ∷ b'D' ∷ b'S' ∷ b'H' ∷ b'A'
    ∷ b'K' ∷ b'E' ∷ b'_' ∷ b'T' ∷ b'R' ∷ b'A' ∷ b'F' ∷ b'F' ∷ b'I' ∷ b'C' ∷ b'_' ∷ b'S' ∷ b'E'
    ∷ b'C' ∷ b'R' ∷ b'E' ∷ b'T' ∷ []
label_name server_handshake_traffic_secret =
    b'S' ∷ b'E' ∷ b'R' ∷ b'V' ∷ b'E' ∷ b'R' ∷ b'_' ∷ b'H' ∷ b'A' ∷ b'N' ∷ b'D' ∷ b'S' ∷ b'H' ∷ b'A'
    ∷ b'K' ∷ b'E' ∷ b'_' ∷ b'T' ∷ b'R' ∷ b'A' ∷ b'F' ∷ b'F' ∷ b'I' ∷ b'C' ∷ b'_' ∷ b'S' ∷ b'E'
    ∷ b'C' ∷ b'R' ∷ b'E' ∷ b'T' ∷ []
label_name client_traffic_secret_0 =
    b'C' ∷ b'L' ∷ b'I' ∷ b'E' ∷ b'N' ∷ b'T' ∷ b'_' ∷ b'T' ∷ b'R' ∷ b'A' ∷ b'F' ∷ b'F' ∷ b'I' ∷ b'C'
    ∷ b'_' ∷ b'S' ∷ b'E' ∷ b'C' ∷ b'R' ∷ b'E' ∷ b'T' ∷ b'_' ∷ b'0' ∷ []
label_name server_traffic_secret_0 =
    b'S' ∷ b'E' ∷ b'R' ∷ b'V' ∷ b'E' ∷ b'R' ∷ b'_' ∷ b'T' ∷ b'R' ∷ b'A' ∷ b'F' ∷ b'F' ∷ b'I' ∷ b'C'
    ∷ b'_' ∷ b'S' ∷ b'E' ∷ b'C' ∷ b'R' ∷ b'E' ∷ b'T' ∷ b'_' ∷ b'0' ∷ []
label_name (other s) = s

-- `SecretLabel::parse`
pub parse_label : List ℕ → SecretLabel
parse_label s =
    if bytes_eq s (label_name client_random)
    then client_random
    else if bytes_eq s (label_name client_handshake_traffic_secret)
    then client_handshake_traffic_secret
    else if bytes_eq s (label_name server_handshake_traffic_secret)
    then server_handshake_traffic_secret
    else if bytes_eq s (label_name client_traffic_secret_0)
    then client_traffic_secret_0
    else if bytes_eq s (label_name server_traffic_secret_0)
    then server_traffic_secret_0
    else other s

pub record Keylog : Type 0 where
  pub by_client_random : List (List ℕ × List (SecretLabel × List ℕ))
  pub entry_count : ℕ

abbrev pub empty_keylog : Keylog
empty_keylog = record { by_client_random = []; entry_count = 0 }

-- `str::lines`: a line ends at a line feed, which goes with a carriage return before it.
abbrev drop_cr : List ℕ → List ℕ
drop_cr [] = []
drop_cr (c ∷ cs) = if c == 13 then cs else c ∷ cs

abbrev lines_loop : List ℕ → List ℕ → List (List ℕ)
lines_loop [] [] = []
lines_loop (a ∷ acc) [] = reverse (a ∷ acc) ∷ []
lines_loop acc (c ∷ cs) =
    if c == 10 then reverse (drop_cr acc) ∷ lines_loop [] cs else lines_loop (c ∷ acc) cs

pub lines : List ℕ → List (List ℕ)
lines contents = lines_loop [] contents

-- `trim_end_matches(['\r', '\n'])`, on the line from its end.
abbrev drop_eol : List ℕ → List ℕ
drop_eol [] = []
drop_eol (c ∷ cs) = if (c == 13) || (c == 10) then drop_eol cs else c ∷ cs

abbrev trim_eol : List ℕ → List ℕ
trim_eol line = reverse (drop_eol (reverse line))

-- The code points with the property `White_Space`.
abbrev is_whitespace : ℕ → Bool
is_whitespace c =
    (leb 9 c && leb c 13)
    || (c == 0x20)
    || (c == 0x85)
    || (c == 0xa0)
    || (c == 0x1680)
    || (leb 0x2000 c && leb c 0x200a)
    || (c == 0x2028)
    || (c == 0x2029)
    || (c == 0x202f)
    || (c == 0x205f)
    || (c == 0x3000)

-- A word that has ended, if it is not empty.
abbrev push_word : List ℕ → List (List ℕ) → List (List ℕ)
push_word [] words = words
push_word (a ∷ acc) words = reverse (a ∷ acc) ∷ words

abbrev words_loop : List ℕ → List ℕ → List (List ℕ)
words_loop acc [] = push_word acc []
words_loop acc (c ∷ cs) =
    if is_whitespace c then push_word acc (words_loop [] cs) else words_loop (c ∷ acc) cs

-- `split_whitespace`
pub split_whitespace : List ℕ → List (List ℕ)
split_whitespace line = words_loop [] line

-- A client random, a label and a secret.
abbrev pub Entry : Type 0
Entry = List ℕ × SecretLabel × List ℕ

-- Two decoded words and a label, if both were hexadecimal.
abbrev decoded : SecretLabel → Option (List ℕ) → Option (List ℕ) → Option Entry
decoded label (some random) (some secret) = some (random, label, secret)
decoded label (some random) none = none
decoded label none secret = none

abbrev words_entry : (List ℕ → Option (List ℕ)) → List (List ℕ) → Option Entry
words_entry decode (label ∷ random ∷ secret ∷ rest) =
    decoded (parse_label label) (decode random) (decode secret)
words_entry decode (label ∷ random ∷ []) = none
words_entry decode (label ∷ []) = none
words_entry decode [] = none

-- Whether a line is blank or a comment.
abbrev is_skipped : List ℕ → Bool
is_skipped [] = true
is_skipped (c ∷ cs) = c == b'#'

-- What one line adds.
pub line_entry : (List ℕ → Option (List ℕ)) → List ℕ → Option Entry
line_entry decode raw_line =
    let line = trim_eol raw_line in
    if is_skipped line then none else words_entry decode (split_whitespace line)

-- `or_default`
abbrev pub or_empty : Option (List (SecretLabel × List ℕ)) → List (SecretLabel × List ℕ)
or_empty none = []
or_empty (some m) = m

pub insert_entry : Entry → Keylog → Keylog
insert_entry (random, label, secret) keylog =
    let inner =
      put label_eq label secret (or_empty (get bytes_eq random keylog.by_client_random)) in
    record {
      by_client_random = put bytes_eq random inner keylog.by_client_random;
      entry_count = keylog.entry_count + 1;
    }

abbrev insert_option : Option Entry → Keylog → Keylog
insert_option none keylog = keylog
insert_option (some e) keylog = insert_entry e keylog

-- The loop over the lines.
pub parse_loop : (List ℕ → Option (List ℕ)) → List (List ℕ) → Keylog → Keylog
parse_loop decode [] keylog = keylog
parse_loop decode (line ∷ rest) keylog =
    parse_loop decode rest (insert_option (line_entry decode line) keylog)

pub parse : (List ℕ → Option (List ℕ)) → List ℕ → Keylog
parse decode contents = parse_loop decode (lines contents) empty_keylog

abbrev get_secret : Option (List (SecretLabel × List ℕ)) → SecretLabel → Option (List ℕ)
get_secret none label = none
get_secret (some inner) label = get label_eq label inner

unfoldable pub secret_for : Keylog → List ℕ → SecretLabel → Option (List ℕ)
secret_for keylog random label = get_secret (get bytes_eq random keylog.by_client_random) label
