-- ===== src/Connection/Reference.antt =====
-- `decrypt_tls13` of src/connection.rs against a search over six candidates without any cache.
use tlscap.Prelude.{
  ℕ, ◌≡◌, refl, sym, ap, ◌∙◌, Bool, true, false, Option, none, some, List, [], ◌∷◌, ◌++◌, length,
  map, ◌⊎◌, inl, inr, Option-cases,
}
use tlscap.Crypto.{AeadAlgorithm, Crypto}
use tlscap.Keylog.{Keylog}
use tlscap.Tls13.{
  Opened, ok, err, aead, record_too_short, no_content_type, RecordKeys, decrypt_record, record_aad,
}
use tlscap.Connection.{
  all_algorithms, Generation, handshake, application, DecryptedRecord, tls13, tls12, DirectionState,
  ConnectionState, keys_for, seq_of, succ_u64, next_seq,
}
use tlscap.Connection.Decrypt.{
  Attempt, opened, too_short, exhausted, tls13_record, try_algorithms, try_generations,
  decrypt_tls13, direction, set_direction,
}
use tlscap.Connection.Caches.{seqs, key_of, Valid, keys_for-Valid}

-- The first attempt that did not come to nothing.
abbrev or_next : Attempt → Attempt → Attempt
or_next (opened r) next = opened r
or_next too_short next = too_short
or_next exhausted next = next

pub first : List Attempt → Attempt
first [] = exhausted
first (a ∷ rest) = or_next a (first rest)

-- A sequence number goes up by one, modulo 2^64, for the generation that was opened.
abbrev pub advance : Attempt → ℕ × ℕ → ℕ × ℕ
advance exhausted s = s
advance too_short s = s
advance (opened r) (h, a) = elim r.version [
  | tls13 handshake ↦ (succ_u64 h, a)
  | tls13 application ↦ (h, succ_u64 a)
  | tls12 nonce ↦ (h, a)
]

Opened-cases :
    (o : Opened)
    → ((content : List ℕ) × (ct : ℕ) × (o ≡ ok content ct))
      ⊎ ((o ≡ err record_too_short) ⊎ ((o ≡ err aead) ⊎ (o ≡ err no_content_type)))
Opened-cases (ok content ct) = inl (content, ct, refl)
Opened-cases (err record_too_short) = inr (inl refl)
Opened-cases (err aead) = inr (inr (inl refl))
Opened-cases (err no_content_type) = inr (inr (inr refl))

pub Attempt-cases :
    (t : Attempt) → ((r : DecryptedRecord) × (t ≡ opened r)) ⊎ ((t ≡ too_short) ⊎ (t ≡ exhausted))
Attempt-cases (opened r) = inl (r, refl)
Attempt-cases too_short = inr (inl refl)
Attempt-cases exhausted = inr (inr refl)

first-append : (xs ys : List Attempt) → first (xs ++ ys) ≡ or_next (first xs) (first ys)
unfolding first
first-append [] ys = refl
first-append (opened r ∷ xs) ys = refl
first-append (too_short ∷ xs) ys = refl
first-append (exhausted ∷ xs) ys = first-append xs ys

seqs-next_seq :
    (crypto : Crypto) (keylog : Keylog) (g : Generation) (a : AeadAlgorithm) (content : List ℕ)
    (ct : ℕ) (dir : DirectionState)
    → seqs (next_seq g dir)
      ≡ advance (opened (tls13_record crypto keylog g a content ct)) (seqs dir)
unfolding next_seq
seqs-next_seq crypto keylog handshake a content ct dir = refl
seqs-next_seq crypto keylog application a content ct dir = refl

module _ (crypto : Crypto) (keylog : Keylog) (random : List ℕ) (is_client : Bool)
    (body : List ℕ) where
  abbrev result_of : Generation → AeadAlgorithm → Opened → Attempt
  result_of g a (ok content ct) = opened (tls13_record crypto keylog g a content ct)
  result_of g a (err aead) = exhausted
  result_of g a (err no_content_type) = exhausted
  result_of g a (err record_too_short) = too_short

  abbrev with_keys : Generation → AeadAlgorithm → ℕ → Option RecordKeys → Attempt
  with_keys g a seq none = exhausted
  with_keys g a seq (some keys) =
      result_of g a (decrypt_record crypto keys seq (record_aad (length body)) body)

  -- What one candidate makes of the record, with the key that the keylog gives.
  pub candidate : Generation → ℕ → AeadAlgorithm → Attempt
  candidate g seq a = with_keys g a seq (key_of crypto keylog random is_client g a)

  next_seq-Valid :
      (g : Generation) (dir : DirectionState)
      → Valid crypto keylog random is_client dir
      → Valid crypto keylog random is_client (next_seq g dir)
  unfolding next_seq
  next_seq-Valid handshake dir v handshake = v handshake
  next_seq-Valid handshake dir v application = v application
  next_seq-Valid application dir v handshake = v handshake
  next_seq-Valid application dir v application = v application

  try_algorithms-first :
      (g : Generation) (seq : ℕ) (as' : List AeadAlgorithm) (dir : DirectionState)
      → Valid crypto keylog random is_client dir
      → (let (attempt, dir') = try_algorithms crypto keylog random is_client g seq body as' dir in
          (attempt ≡ first (map (candidate g seq) as'))
          × Valid crypto keylog random is_client dir'
          × (seqs dir' ≡ advance attempt (seqs dir)))
  unfolding try_algorithms first candidate
  try_algorithms-first g seq [] dir v = (refl, v, refl)
  try_algorithms-first g seq (a ∷ rest) dir v =
      let (found, v', same) = keys_for-Valid crypto keylog random is_client g a dir v in
      let k = key_of crypto keylog random is_client g a in
      let dir' = (keys_for crypto g random keylog is_client a dir).1 in
      let attempt = (try_algorithms crypto keylog random is_client g seq body rest dir').0 in
      let (again, vs, moved) = try_algorithms-first g seq rest dir' v' in
      elim (Option-cases k) [
        | inl absent ↦
            rw (found, absent, try_algorithms) (again, vs, moved ∙ ap (advance attempt) same)
        | inr (keys, present) ↦
            elim (Opened-cases (decrypt_record crypto keys seq (record_aad (length body)) body)) [
              | inl (content, ct, o) ↦
                  rw (found, present, o, try_algorithms)
                    (
                      refl,
                      next_seq-Valid g dir' v',
                      seqs-next_seq crypto keylog g a content ct dir'
                          ∙ ap (advance (opened (tls13_record crypto keylog g a content ct))) same,
                    )
              | inr (inl o) ↦ rw (found, present, o, try_algorithms) (refl, v', same)
              | inr (inr (inl o)) ↦
                  rw (found, present, o, try_algorithms)
                    (again, vs, moved ∙ ap (advance attempt) same)
              | inr (inr (inr o)) ↦
                  rw (found, present, o, try_algorithms)
                    (again, vs, moved ∙ ap (advance attempt) same)
            ]
      ]

  -- The six candidates in their order, each with the next sequence number of its generation.
  pub candidates : ℕ × ℕ → List Attempt
  candidates (h, a) =
      map (candidate handshake h) all_algorithms ++ map (candidate application a) all_algorithms

  try_generations-one :
      (g : Generation) (dir : DirectionState)
      → try_generations crypto keylog random is_client body (g ∷ []) dir
        ≡ try_algorithms crypto keylog random is_client g (seq_of g dir) body all_algorithms dir
  unfolding try_generations
  try_generations-one g dir =
      let one =
        try_algorithms crypto keylog random is_client g (seq_of g dir) body all_algorithms dir in
      elim (Attempt-cases one.0) [
        | inl (r, o) ↦ rw (o, try_generations)
        | inr (inl o) ↦ rw (o, try_generations)
        | inr (inr o) ↦ rw (o, try_generations)
      ]

  pub try_generations-first :
      (dir : DirectionState)
      → Valid crypto keylog random is_client dir
      → (let (attempt, dir') =
            try_generations crypto keylog random is_client body
              (handshake ∷ application ∷ [])
              dir in
          (attempt ≡ first (candidates (seqs dir)))
          × Valid crypto keylog random is_client dir'
          × (seqs dir' ≡ advance attempt (seqs dir)))
  unfolding try_generations candidates
  try_generations-first dir v =
      let h = dir.seq_handshake in
      let a = dir.seq_application in
      let one = try_algorithms crypto keylog random is_client handshake h body all_algorithms dir in
      let (e, v', s) = try_algorithms-first handshake h all_algorithms dir v in
      let last = try_generations-one application one.1 in
      let (e', v'', s') =
        rw (← last) at
          (try_algorithms-first application (seq_of application one.1) all_algorithms one.1 v') in
      let rest = first (map (candidate application a) all_algorithms) in
      let both =
        first-append (map (candidate handshake h) all_algorithms)
          (map (candidate application a) all_algorithms) in
      let found : (t : Attempt) → one.0 ≡ t → or_next t rest ≡ first (candidates (seqs dir)) =
        λ t o. sym (both ∙ ap (λ (x : Attempt). or_next x rest) (sym e ∙ o)) in
      let moved : (t : Attempt) → one.0 ≡ t → seqs one.1 ≡ advance t (seqs dir) =
        λ t o. s ∙ ap (λ (x : Attempt). advance x (seqs dir)) o in
      elim (Attempt-cases one.0) [
        | inl (r, o) ↦ rw (o, try_generations) (found (opened r) o, v', moved (opened r) o)
        | inr (inl o) ↦ rw (o, try_generations) (found too_short o, v', moved too_short o)
        | inr (inr o) ↦
            let two =
              try_generations crypto keylog random is_client body (application ∷ []) one.1 in
            let kept = moved exhausted o in
            let seq : one.1.seq_application ≡ a = ap (λ (p : ℕ × ℕ). p.1) kept in
            rw (o, try_generations)
              (
                e'
                    ∙ ap (λ (n : ℕ). first (map (candidate application n) all_algorithms)) seq
                    ∙ found exhausted o,
                v'',
                s' ∙ ap (advance two.0) kept,
              )
      ]

-- While the key caches of a direction hold what the keylog gives, an attempt at TLS 1.3 finds what a
-- search without caches finds: of six candidates, handshake keys before application keys, the first
-- that opens the record with the next sequence number of its generation. The caches stay so, this
-- sequence number goes up by one if the record was opened and otherwise none does, and nothing but
-- this direction changes.
pub decrypt_tls13-first :
    (crypto : Crypto) (keylog : Keylog) (is_client : Bool) (body : List ℕ) (state : ConnectionState)
    → (let random = state.client_random in
        let dir = direction crypto keylog is_client state in
        let (attempt, after) = decrypt_tls13 crypto keylog is_client body state in
        let dir' = direction crypto keylog is_client after in
        Valid crypto keylog random is_client dir
        → (attempt ≡ first (candidates crypto keylog random is_client body (seqs dir)))
          × Valid crypto keylog random is_client dir'
          × (seqs dir' ≡ advance attempt (seqs dir))
          × (after ≡ set_direction crypto keylog is_client dir' state))
unfolding decrypt_tls13
decrypt_tls13-first crypto keylog true body state v =
    let (found, valid, moved) =
      try_generations-first crypto keylog state.client_random true body state.client_to_server v in
    (found, valid, moved, refl)
decrypt_tls13-first crypto keylog false body state v =
    let (found, valid, moved) =
      try_generations-first crypto keylog state.client_random false body state.server_to_client v in
    (found, valid, moved, refl)
