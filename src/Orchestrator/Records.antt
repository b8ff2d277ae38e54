-- ===== src/Orchestrator/Records.antt =====
-- `drain_records` and `dissect_and_emit` of src/orchestrator.rs, for the connection that the key
-- names. The Lua engine and the polled keylog are parameters.
use tlscap.Prelude.{
  ℕ, zero, suc, ◌≢◌, ◌+◌, ◌-◌, min, Bool, true, false, ◌||◌, Option, none, some, List, [], ◌∷◌,
  ◌++◌, ltb, ◌==◌, if◌then◌else◌, length, drop, get_or,
}
use tlscap.Prelude.Words.{from_be}
use tlscap.Crypto.{Crypto}
use tlscap.Keylog.{Keylog}
use tlscap.Tls12.{server_random_from_server_hello}
use tlscap.Reassembly.{StreamReassembler, peek, take_bytes}
use tlscap.Connection
use tlscap.Connection.{
  ConnectionState, set_server_random, Decrypted, done, failed, stuck, no_key, auth_failed,
  DecryptedRecord,
}
use tlscap.Connection.Decrypt.{decrypt, client_random_from_client_hello}
use tlscap.Orchestrator.{
  Endpoint, Connection, reassembler_for, set_reassembler, take_tail, set_tail, endpoints, Stats,
}

-- What `LuaEngine::dissect` gives: fields and the count of consumed bytes, no dissector for the port,
-- an error of Lua, or a panic of a function that the dissector calls, which goes through Lua.
pub data Dissected (F : Type 0) : Type 0 where
  fields : F → ℕ → Dissected F
  unregistered : Dissected F
  error : Dissected F
  panicked : Dissected F

-- No call of the dissectors panics.
abbrev pub Calm : {F L : Type 0} → (ℕ → List ℕ → L → Dissected F × L) → Type 0
Calm dissect = (port : ℕ) (bytes : List ℕ) (lua : _) → (dissect port bytes lua).0 ≢ panicked

pub record DecodedMessage (F : Type 0) : Type 0 where
  pub src : Endpoint
  pub dst : Endpoint
  pub tls_app_data : List ℕ
  pub message_fields : F
  pub timestamp : ℕ

-- What the record loop changes besides the connection.
pub record World (L S : Type 0) : Type 0 where
  pub stats : Stats
  pub lua : L
  pub keylog : S

-- What a record is, before any attempt to decrypt it: plaintext by the protocol, with the state after
-- it, of a connection without a ClientHello, or to be decrypted.
pub data Verdict : Type 0 where
  plaintext : Option ConnectionState → Verdict
  no_client_hello : Verdict
  attempt : ConnectionState → Verdict

-- Past the two hellos.
abbrev pub otherwise : Option ConnectionState → Verdict
otherwise none = no_client_hello
otherwise (some state) = attempt state

abbrev pub client_hello : Option (List ℕ) → Verdict
client_hello none = no_client_hello
client_hello (some random) = plaintext (some (Connection.new random))

abbrev pub server_hello : Option (List ℕ) → Option ConnectionState → Verdict
server_hello none state = otherwise state
server_hello (some random) none = no_client_hello
server_hello (some random) (some state) =
    let (learned, state') = set_server_random random state in
    if learned then plaintext (some state') else attempt state'

abbrev pub hello : Bool → List ℕ → Option ConnectionState → Verdict
hello true body none = client_hello (client_random_from_client_hello body)
hello true body (some state) = attempt state
hello false body state = server_hello (server_random_from_server_hello body) state

pub classify : Bool → ℕ → List ℕ → Option ConnectionState → Verdict
classify is_c2s outer_content_type body state =
    if outer_content_type == 0x14 then plaintext state else hello is_c2s body state

abbrev pub count_seen : Stats → Stats
count_seen s = record s { tls_records_seen = s.tls_records_seen + 1 }

abbrev pub count_plaintext : Stats → Stats
count_plaintext s = record s {
  tls_records_plaintext_handshake = s.tls_records_plaintext_handshake + 1;
}

abbrev pub count_no_client_hello : Stats → Stats
count_no_client_hello s = record s {
  tls_records_no_client_hello = s.tls_records_no_client_hello + 1;
}

abbrev pub count_decrypted : Stats → Stats
count_decrypted s = record s { tls_records_decrypted = s.tls_records_decrypted + 1 }

abbrev pub count_nokey : Stats → Stats
count_nokey s = record s { tls_records_nokey = s.tls_records_nokey + 1 }

abbrev pub count_authfailed : Stats → Stats
count_authfailed s = record s { tls_records_authfailed = s.tls_records_authfailed + 1 }

-- The most recent bytes stay.
unfoldable pub set_tail_capped : ℕ → Bool → List ℕ → Connection → Stats → Connection × Stats
set_tail_capped max_tail_bytes is_c2s bytes conn stats =
    if ltb max_tail_bytes (length bytes)
    then (
      set_tail is_c2s (drop (length bytes - max_tail_bytes) bytes) conn,
      record stats {
        tail_bytes_discarded = stats.tail_bytes_discarded + (length bytes - max_tail_bytes);
      },
    )
    else (set_tail is_c2s bytes conn, stats)

module _ (crypto : Crypto) {F L S : Type 0} (no_fields : F)
    (dissect : ℕ → List ℕ → L → Dissected F × L) (poll poll_after_miss : S → S)
    (current : S → Keylog) (max_tail_bytes : ℕ) where
  -- The match on the result of the dissection. `none` is the panic.
  abbrev pub keep_tail :
      Dissected F → Bool → List ℕ → Connection → Stats → Option (F × (Connection × Stats))
  keep_tail (fields f consumed) is_c2s buf conn stats =
      some
        (f, set_tail_capped max_tail_bytes is_c2s (drop (min consumed (length buf)) buf) conn stats)
  keep_tail unregistered is_c2s buf conn stats = some (no_fields, (conn, stats))
  keep_tail error is_c2s buf conn stats =
      some (no_fields, set_tail_capped max_tail_bytes is_c2s buf conn stats)
  keep_tail panicked is_c2s buf conn stats = none

  -- The message that is emitted, with the tail that is kept.
  abbrev pub emit :
      Bool
      → List ℕ
      → ℕ
      → Connection
      → World L S
      → Option (F × (Connection × Stats))
      → Option (Connection × World L S × DecodedMessage F)
  emit is_c2s plain timestamp conn world none = none
  emit is_c2s plain timestamp conn world (some (f, (conn', stats))) =
      let (src, dst) = endpoints is_c2s conn in
      some (
        conn',
        record world { stats = stats },
        record {
          src = src;
          dst = dst;
          tls_app_data = plain;
          message_fields = f;
          timestamp = timestamp;
        },
      )

  unfoldable pub dissect_and_emit :
      Bool
      → List ℕ
      → ℕ
      → Connection
      → World L S
      → Option (Connection × World L S × DecodedMessage F)
  dissect_and_emit is_c2s plain timestamp conn world =
      let (old, conn') = take_tail is_c2s conn in
      let buf = old ++ plain in
      let (result, lua') = dissect conn.server_endpoint.1 buf world.lua in
      emit is_c2s plain timestamp conn (record world { lua = lua' })
        (keep_tail result is_c2s buf conn' world.stats)

  abbrev pub as_messages :
      Option (Connection × World L S × DecodedMessage F)
      → Option (Connection × World L S × List (DecodedMessage F))
  as_messages none = none
  as_messages (some (conn, world, message)) = some (conn, world, message ∷ [])

  -- After the attempt, with the changed state in the connection. `none`: the PRF's loop did not end, or
  -- the dissector panicked.
  unfoldable pub conclude :
      Bool
      → ℕ
      → Decrypted
      → Connection
      → World L S
      → Option (Connection × World L S × List (DecodedMessage F))
  conclude is_c2s timestamp stuck conn world = none
  conclude is_c2s timestamp (failed no_key) conn world = some (
    conn,
    record world { stats = count_nokey world.stats; keylog = poll_after_miss world.keylog },
    [],
  )
  conclude is_c2s timestamp (failed auth_failed) conn world =
      some (conn, record world { stats = count_authfailed world.stats }, [])
  conclude is_c2s timestamp (done r) conn world =
      let world' : World L S = record world { stats = count_decrypted world.stats } in
      if r.content_type == 0x17
      then as_messages (dissect_and_emit is_c2s r.plaintext timestamp conn world')
      else some (conn, world', [])

  abbrev pub act :
      Verdict
      → Bool
      → ℕ
      → ℕ
      → List ℕ
      → Connection
      → World L S
      → Option (Connection × World L S × List (DecodedMessage F))
  act (plaintext state) is_c2s timestamp ct body conn world =
      some (record conn { state = state }, record world { stats = count_plaintext world.stats }, [])
  act no_client_hello is_c2s timestamp ct body conn world =
      some (conn, record world { stats = count_no_client_hello world.stats }, [])
  act (attempt state) is_c2s timestamp ct body conn world =
      let keylog' = poll world.keylog in
      let (outcome, state') = decrypt crypto (current keylog') is_c2s ct body state in
      conclude is_c2s timestamp outcome (record conn { state = some state' })
        (record world { keylog = keylog' })

  -- One round of the loop, from the record that was taken on.
  unfoldable pub handle_record :
      Bool
      → ℕ
      → List ℕ
      → Connection
      → World L S
      → Option (Connection × World L S × List (DecodedMessage F))
  handle_record is_c2s timestamp bytes conn world =
      let ct = get_or bytes 0 0 in
      let body = drop 5 bytes in
      act (classify is_c2s ct body conn.state) is_c2s timestamp ct body conn
        (record world { stats = count_seen world.stats })

  -- The bytes of the first record, by its header.
  abbrev pub record_len : StreamReassembler → ℕ
  record_len r = let header = peek 5 r in 5 + from_be 0 (get_or header 3 0 ∷ get_or header 4 0 ∷ [])

  -- The loop, with fuel. `none` is a panic of `take_bytes` or of the dissector, fuel that ran out, or a PRF without end.
  unfoldable pub drain_records_loop :
      ℕ
      → Bool
      → ℕ
      → Connection
      → World L S
      → List (DecodedMessage F)
      → Option (Connection × World L S × List (DecodedMessage F))
  drain_records_loop zero is_c2s timestamp conn world out = none
  drain_records_loop (suc fuel) is_c2s timestamp conn world out =
      let r = reassembler_for is_c2s conn in
      elim (ltb r.contiguous_len 5 || ltb r.contiguous_len (record_len r)) [
        | true ↦ some (conn, world, out)
        | false ↦ elim (take_bytes (record_len r) r) [
          | none ↦ none
          | some t ↦
              elim (handle_record is_c2s timestamp t.out (set_reassembler is_c2s t.reassembler conn)
                world) [
                  | none ↦ none
                  | some (conn', world', messages) ↦
                      drain_records_loop fuel is_c2s timestamp conn' world' (out ++ messages)
                ]
        ]
      ]

  -- A record has at least five bytes, so one round more than there are bytes is enough.
  unfoldable pub drain_records :
      Bool
      → ℕ
      → Connection
      → World L S
      → List (DecodedMessage F)
      → Option (Connection × World L S × List (DecodedMessage F))
  drain_records is_c2s timestamp conn world out =
      drain_records_loop (suc (reassembler_for is_c2s conn).contiguous_len) is_c2s timestamp conn
        world out
