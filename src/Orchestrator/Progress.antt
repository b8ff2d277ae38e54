-- ===== src/Orchestrator/Progress.antt =====
-- The record loop of src/orchestrator.rs ends, and its counters add up.
use tlscap.Prelude.{
  ℕ, zero, suc, ◌+◌, ◌<◌, ◌≡◌, ◌≢◌, refl, subst, sym, ap, ◌∙◌, Bool, true, false, ◌||◌, Option,
  none, some, List, [], ◌++◌, ltb, ◌==◌, length, drop, get_or, Bool-cases, inl, inr, ◌⊎◌, arith,
}
use tlscap.Crypto.{Crypto, Lawful}
use tlscap.Keylog.{Keylog}
use tlscap.Reassembly.{StreamReassembler}
use tlscap.Reassembly.WellFormed.{WellFormed}
use tlscap.Reassembly.Take.{take_bytes_leaves}
use tlscap.Connection.{ConnectionState, Decrypted, done, failed, stuck, no_key, auth_failed}
use tlscap.Connection.Decrypt.{decrypt}
use tlscap.Connection.Facts.{decrypt_not_stuck}
use tlscap.Orchestrator.{Connection, reassembler_for, set_reassembler, set_tail, tail, Stats}
use tlscap.Orchestrator.Records.{
  Dissected, fields, unregistered, error, panicked, Calm, emit, as_messages, DecodedMessage, World,
  Verdict, count_decrypted, count_seen, plaintext, no_client_hello, attempt, classify,
  set_tail_capped, keep_tail, dissect_and_emit, conclude, act, handle_record, record_len,
  drain_records_loop, drain_records,
}

abbrev pub outcomes : Stats → ℕ
outcomes s =
    s.tls_records_decrypted + s.tls_records_nokey + s.tls_records_authfailed
    + s.tls_records_no_client_hello + s.tls_records_plaintext_handshake

-- The five outcomes sum to the records seen.
abbrev pub Balanced : Stats → Type 0
Balanced s = s.tls_records_seen ≡ outcomes s

-- One record seen has no outcome yet.
abbrev Owing : Stats → Type 0
Owing s = s.tls_records_seen ≡ outcomes s + 1

-- The same reassemblers.
abbrev pub Kept : Connection → Connection → Type 0
Kept conn conn' = (d : Bool) → reassembler_for d conn' ≡ reassembler_for d conn

-- Both reassemblers are well-formed.
abbrev pub Formed : Connection → Type 0
Formed conn = (d : Bool) → WellFormed (reassembler_for d conn)

set_tail-Kept :
    (is_c2s : Bool) (bytes : List ℕ) (conn : Connection) → Kept conn (set_tail is_c2s bytes conn)
set_tail-Kept true bytes conn true = refl
set_tail-Kept true bytes conn false = refl
set_tail-Kept false bytes conn true = refl
set_tail-Kept false bytes conn false = refl

set_tail_capped-Balanced :
    (cap : ℕ) (is_c2s : Bool) (bytes : List ℕ) (conn : Connection) (stats : Stats)
    → Balanced stats
    → (let (conn', stats') = set_tail_capped cap is_c2s bytes conn stats in
        Kept conn conn' × Balanced stats')
unfolding set_tail_capped
set_tail_capped-Balanced cap is_c2s bytes conn stats b =
    elim (Bool-cases (ltb cap (length bytes))) [
      | inl long ↦ rw long (set_tail-Kept is_c2s _ conn, b)
      | inr short ↦ rw short (set_tail-Kept is_c2s _ conn, b)
    ]

module _ (crypto : Crypto) {F L S : Type 0} (no_fields : F)
    (dissect : ℕ → List ℕ → L → Dissected F × L) (poll poll_after_miss : S → S)
    (current : S → Keylog) (max_tail_bytes : ℕ) where
  -- A result with the reassembler of before and balanced counters.
  abbrev Done :
      Bool → Connection → Option (Connection × World L S × List (DecodedMessage F)) → Type 0
  Done is_c2s conn none = ⊥
  Done is_c2s conn (some (conn', world, messages)) = Kept conn conn' × Balanced world.stats

  -- What is kept of the tails: the reassemblers and balanced counters. A panic keeps nothing.
  abbrev TailKept : Connection → Option (F × (Connection × Stats)) → Type 0
  TailKept conn none = ⊥
  TailKept conn (some (f, (conn', stats))) = Kept conn conn' × Balanced stats

  keep_tail-Balanced :
      (result : Dissected F) (is_c2s : Bool) (buf : List ℕ) (conn : Connection) (stats : Stats)
      → result ≢ panicked
      → Balanced stats
      → TailKept conn (
          keep_tail crypto no_fields dissect poll poll_after_miss current max_tail_bytes result
            is_c2s buf conn stats)
  keep_tail-Balanced (fields f n) is_c2s buf conn stats calm b =
      set_tail_capped-Balanced max_tail_bytes is_c2s _ conn stats b
  keep_tail-Balanced unregistered is_c2s buf conn stats calm b = (λ d. refl, b)
  keep_tail-Balanced error is_c2s buf conn stats calm b =
      set_tail_capped-Balanced max_tail_bytes is_c2s buf conn stats b
  keep_tail-Balanced panicked is_c2s buf conn stats calm b = absurd (calm refl)

  emit-Done :
      (is_c2s : Bool) (plain : List ℕ) (timestamp : ℕ) (conn conn' : Connection) (world : World L S)
      (o : Option (F × (Connection × Stats)))
      → Kept conn conn'
      → TailKept conn' o
      → Done is_c2s conn (
          as_messages crypto no_fields dissect poll poll_after_miss current max_tail_bytes (
            emit crypto no_fields dissect poll poll_after_miss current max_tail_bytes is_c2s plain
              timestamp conn world o))
  emit-Done is_c2s plain timestamp conn conn' world none k t = t
  emit-Done is_c2s plain timestamp conn conn' world (some (f, (conn'', stats))) k t =
      (λ d. t.0 d ∙ k d, t.1)

  conclude-Done :
      (is_c2s : Bool) (timestamp : ℕ) (o : Decrypted) (conn : Connection) (world : World L S)
      → Calm dissect
      → o ≢ stuck
      → Owing world.stats
      → Done is_c2s conn (
          conclude crypto no_fields dissect poll poll_after_miss current max_tail_bytes is_c2s
            timestamp o conn world)
  unfolding conclude dissect_and_emit
  conclude-Done is_c2s timestamp stuck conn world calm h b = absurd (h refl)
  conclude-Done is_c2s timestamp (failed no_key) conn world calm h b = (λ d. refl, omega arith)
  conclude-Done is_c2s timestamp (failed auth_failed) conn world calm h b = (λ d. refl, omega arith)
  conclude-Done is_c2s timestamp (done r) conn world calm h b =
      elim (Bool-cases (r.content_type == 0x17)) [
        | inl e ↦
            let buf = tail is_c2s conn ++ r.plaintext in
            let result = (dissect conn.server_endpoint.1 buf world.lua).0 in
            let kept =
              keep_tail-Balanced result is_c2s buf (set_tail is_c2s [] conn)
                (count_decrypted world.stats) (calm conn.server_endpoint.1 buf world.lua)
                (omega arith) in
            let world' : World L S = record world {
              stats = count_decrypted world.stats;
              lua = (dissect conn.server_endpoint.1 buf world.lua).1;
            } in
            rw (e, conclude)
              (emit-Done is_c2s r.plaintext timestamp conn (set_tail is_c2s [] conn) world' _
                (set_tail-Kept is_c2s [] conn) kept)
        | inr e ↦ rw (e, conclude) (λ d. refl, omega arith)
      ]

  set_state-Kept :
      (state : Option ConnectionState) (conn : Connection)
      → Kept conn (record conn { state = state })
  set_state-Kept state conn true = refl
  set_state-Kept state conn false = refl

  Done-Kept :
      (is_c2s : Bool) (conn conn' : Connection)
      (o : Option (Connection × World L S × List (DecodedMessage F)))
      → Kept conn conn'
      → Done is_c2s conn' o
      → Done is_c2s conn o
  Done-Kept is_c2s conn conn' none k d = d
  Done-Kept is_c2s conn conn' (some (c, world, ms)) k d = (λ e. d.0 e ∙ k e, d.1)

  Done-some :
      (is_c2s : Bool) (conn : Connection)
      (o : Option (Connection × World L S × List (DecodedMessage F)))
      → Done is_c2s conn o
      → (conn' : Connection) × (world : World L S) × (messages : List (DecodedMessage F)) × (o
          ≡ some (conn', world, messages))
        × Kept conn conn'
        × Balanced world.stats
  Done-some is_c2s conn none d = absurd d
  Done-some is_c2s conn (some (conn', world, messages)) d = (conn', world, messages, refl, d.0, d.1)

  module _ (law : Lawful crypto) (calm : Calm dissect) where
    act-Done :
        (v : Verdict) (is_c2s : Bool) (timestamp ct : ℕ) (body : List ℕ) (conn : Connection)
        (world : World L S)
        → Owing world.stats
        → Done is_c2s conn (
            act crypto no_fields dissect poll poll_after_miss current max_tail_bytes v is_c2s
              timestamp ct body conn world)
    act-Done (plaintext state) is_c2s timestamp ct body conn world b =
        (set_state-Kept state conn, omega arith)
    act-Done no_client_hello is_c2s timestamp ct body conn world b = (λ d. refl, omega arith)
    act-Done (attempt state) is_c2s timestamp ct body conn world b =
        let keylog' = poll world.keylog in
        let (outcome, state') = decrypt crypto (current keylog') is_c2s ct body state in
        Done-Kept is_c2s conn (record conn { state = some state' }) _
          (set_state-Kept (some state') conn)
          (conclude-Done is_c2s timestamp outcome (record conn { state = some state' })
            (record world { keylog = keylog' }) calm
            (decrypt_not_stuck crypto (current keylog') law is_c2s ct body state) b)

    handle_record-Done :
        (is_c2s : Bool) (timestamp : ℕ) (bytes : List ℕ) (conn : Connection) (world : World L S)
        → Balanced world.stats
        → Done is_c2s conn (
            handle_record crypto no_fields dissect poll poll_after_miss current max_tail_bytes
              is_c2s timestamp bytes conn world)
    unfolding handle_record
    handle_record-Done is_c2s timestamp bytes conn world b =
        act-Done (classify is_c2s (get_or bytes 0 0) (drop 5 bytes) conn.state) is_c2s timestamp
          (get_or bytes 0 0) (drop 5 bytes) conn (record world { stats = count_seen world.stats })
          (omega arith)

    set_reassembler-Formed :
        (is_c2s : Bool) (r : StreamReassembler) (conn : Connection)
        → WellFormed r
        → Formed conn
        → Formed (set_reassembler is_c2s r conn)
    set_reassembler-Formed true r conn w f true = w
    set_reassembler-Formed true r conn w f false = f false
    set_reassembler-Formed false r conn w f true = f true
    set_reassembler-Formed false r conn w f false = w

    set_reassembler-for :
        (is_c2s : Bool) (r : StreamReassembler) (conn : Connection)
        → reassembler_for is_c2s (set_reassembler is_c2s r conn) ≡ r
    set_reassembler-for true r conn = refl
    set_reassembler-for false r conn = refl

    -- After the loop: no whole record is left, and the counters add up.
    abbrev pub Drained : Bool → Option (Connection × World L S × List (DecodedMessage F)) → Type 0
    Drained is_c2s o =
        (conn : Connection) × (world : World L S) × (out : List (DecodedMessage F)) × (o
          ≡ some (conn, world, out))
        × Formed conn
        × (let r = reassembler_for is_c2s conn in
            (r.contiguous_len < 5)
            ⊎ (r.contiguous_len
                < record_len crypto no_fields dissect poll poll_after_miss current max_tail_bytes
                    r))
        × Balanced world.stats

    drain_records_loop-Drained :
        (fuel : ℕ) (is_c2s : Bool) (timestamp : ℕ) (conn : Connection) (world : World L S)
        (out : List (DecodedMessage F))
        → Formed conn
        → (reassembler_for is_c2s conn).contiguous_len < fuel
        → Balanced world.stats
        → Drained is_c2s (
            drain_records_loop crypto no_fields dissect poll poll_after_miss current max_tail_bytes
              fuel is_c2s timestamp conn world out)
    unfolding drain_records_loop
    drain_records_loop-Drained zero is_c2s timestamp conn world out w lt b = absurd (omega arith)
    drain_records_loop-Drained (suc fuel) is_c2s timestamp conn world out w lt b =
        let r = reassembler_for is_c2s conn in
        let n = record_len crypto no_fields dissect poll poll_after_miss current max_tail_bytes r in
        elim (Bool-cases (ltb r.contiguous_len 5 || ltb r.contiguous_len n)) [
          | inl stop ↦ rw (stop, drain_records_loop) (conn, world, out, refl, w, ground arith, b)
          | inr go ↦
              let (t, taken, w', less) = take_bytes_leaves n r (w is_c2s) (ground arith) in
              let conn1 = set_reassembler is_c2s t.reassembler conn in
              let there = set_reassembler-for is_c2s t.reassembler conn in
              let (conn', world', messages, handled, kept, b') =
                Done-some is_c2s conn1 _
                  (handle_record-Done is_c2s timestamp t.out conn1 world b) in
              let same = kept is_c2s ∙ there in
              rw (go, taken, handled, drain_records_loop)
                (drain_records_loop-Drained fuel is_c2s timestamp conn' world' (out ++ messages)
                  (λ d.
                    subst WellFormed (sym (kept d))
                      (set_reassembler-Formed is_c2s t.reassembler conn w' w d))
                  (omega (arith, ap (λ (x : StreamReassembler). x.contiguous_len) same, less, lt))
                  b')
        ]

    -- If the dissectors do not panic, then the record loop always ends without a panic: no whole record is left in the direction's
    -- reassembler, both reassemblers stay well-formed, and if the five outcome counters summed to the records seen
    -- before, then they do so after.
    pub drain_records-Drained :
        (is_c2s : Bool) (timestamp : ℕ) (conn : Connection) (world : World L S)
        → (out : List (DecodedMessage F)) → Formed conn
        → Balanced world.stats
        → Drained is_c2s (
            drain_records crypto no_fields dissect poll poll_after_miss current max_tail_bytes
              is_c2s timestamp conn world out)
    unfolding drain_records
    drain_records-Drained is_c2s timestamp conn world out w b =
        drain_records_loop-Drained (suc (reassembler_for is_c2s conn).contiguous_len) is_c2s
          timestamp conn world out w (omega arith) b
