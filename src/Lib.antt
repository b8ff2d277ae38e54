-- ===== src/Lib.antt =====
-- A model of tlscap, which reads captured TCP frames, reassembles each direction of a connection,
-- cuts the byte stream into TLS records and decrypts them with the secrets of a keylog.
--
-- Parts, and how they interact:
--   src/reassembly.rs takes TCP segments in any order and hands out the bytes of one direction in
--   the order of the stream. src/keylog.rs indexes the secrets of an SSLKEYLOGFILE.
--   src/connection.rs looks secrets up there, derives keys with src/tls13.rs or src/tls12.rs, and
--   tries every candidate on a record. src/orchestrator.rs drives them: it finds the connection of
--   a frame, feeds its reassembler, cuts records off, decrypts and dissects them, and evicts.
--   src/keylog_source.rs keeps the keylog fresh. src/main.rs takes packets from src/pcap_input.rs, has
--   the orchestrator process them, and writes what comes out as documents of src/ek_output.rs, in
--   chunks of src/rotation.rs.
--
-- Files and sources:
--   Prelude and its children: lists, Boolean tests, maps and machine words. A `HashMap` is an
--     association list by a test of its keys' equality, a `BTreeMap` one in the order of its keys.
--   Reassembly and its children: src/reassembly.rs. `StreamReassembler` is a record with the fields
--     of the struct; `push`, `peek` and `take_bytes` are functions on it. The functions
--     `drain_pending`, `buffer_pending` and their loops keep their names. The clock that the code
--     reads is an argument, in a unit of its own.
--   Keylog and its children: src/keylog.rs. A string is a list of code points.
--   Crypto: what the crates hkdf, hmac, aes_gcm and chacha20poly1305 are called for. Their operations
--     are the parameter `Crypto`, their documented laws the record `Lawful`; Crypto.Toy is a lawful
--     instance for the examples.
--   Tls13 and its children: src/tls13.rs. Tls12 and its children: src/tls12.rs. `derive`,
--     `nonce_for`, `decrypt_record` and `encrypt_record` keep their names, and `RecordKeys` is a record.
--   Connection and its children: src/connection.rs. `ConnectionState` is a record with the fields of
--     the struct, and a method that changes it returns the new state.
--   Orchestrator and its children: src/orchestrator.rs, and the types of a frame of
--     src/pcap_input.rs. The map of connections is an association list; `drain_records` works on
--     the connection that the key names. The Lua engine, with its state, and the polled keylog, with
--     its state, are parameters, and the readings of the clock are arguments. Upkeep wraps
--     `process_frame` with the collection of the Lua heap and the log of ports without a dissector;
--     Usage has what is reported of connections and buffered bytes.
--   Text and its children: what the code has the standard library print, decimal numbers and
--     addresses, and texts of lines. Fields and its children: the values of src/lua/tree.rs,
--     and in Fields.Building the handles that build them, over a store of accumulators.
--   EkOutput and its children: src/ek_output.rs. `EkWriter` is in EkOutput.Ek, `NdjsonWriter` in
--     EkOutput.Ndjson, `grouped_entries` in EkOutput.Grouping, the writers of values in
--     EkOutput.Values, the dates in EkOutput.Dates and `write_json_string` in EkOutput.Json.
--   KeylogSource and its children: src/keylog_source.rs, with the answers of the file system and of
--     the clock as arguments.
--   PcapInput and its children: src/pcap_input.rs. `parse_tcp_frame` is in PcapInput, `open` in
--     PcapInput.Magic, `next_packet` in PcapInput.Stream, `correct_epb_timestamp` in
--     PcapInput.Timestamp. The crate etherparse is a parameter, the readers of pcap-file are sequences.
--   Tvb and its children: src/lua/tvb.rs. Engine and its child: `LuaEngine` of src/lua/mod.rs and
--     src/lua/dissector_table.rs, with the interpreter as a parameter. Rotation and its children:
--     src/rotation.rs, with the outcomes of the calls to the system as arguments.
--   Main and its children: the checks, the loop and `Output` of src/main.rs, which compose the parts.
--   The Examples files: runs at concrete inputs.
--
-- Bounds and fuel: bytes are natural numbers, below 256 where a theorem needs it, and the
--   arithmetic of machine integers that can wrap is written with its modulus (sequence numbers of
--   TCP modulo 2^32, of records modulo 2^64, of `usize` modulo 2^64). Eight functions are on fuel.
--   That of `p_hash` adds a byte at least in each round, so one round more than the bytes asked for
--   is enough. That of `drain_records` takes five bytes at least, so one round more than the bytes
--   held is enough. The loop of `open` reads a byte at least in each round, up to four. The loop of
--   `run` takes a round for each packet of the stream. The writers of values go down one subtree in
--   each round, so the count of subtrees is enough, and the reading of a store one level, so the
--   count of accumulators is enough. The prints of decimal and of hexadecimal numbers take a round
--   for each digit, and a number has no more digits than its value, and one if it is 0. All other
--   loops go down a list.
--
-- Not modelled: of src/lua, the set-up of the Lua interpreter, `pinfo` and `add_expert_info`; of
--   src/main.rs, the parsing of arguments, the opening of the streams and the statistics that it
--   prints; src/plugin_loader.rs, src/memstats.rs and src/lib.rs, which are input, output and
--   process setup. Warnings that the code prints and counts of bytes
--   that no caller reads have no part in the model, and a panic is an absent result. A
--   function of the program that a dissector calls may panic, and the panic goes on through Lua: that
--   is an outcome of a dissection, and the theorems that exclude a panic say so of the dissectors.
pub mod Prelude
pub mod Reassembly
pub mod Keylog
pub mod Connection
pub mod Orchestrator
pub mod Crypto
pub mod Tls13
pub mod Tls12
pub mod Text
pub mod Fields
pub mod EkOutput
pub mod KeylogSource
pub mod PcapInput
pub mod Tvb
pub mod Engine
pub mod Rotation
pub mod Main
