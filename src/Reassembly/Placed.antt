-- ===== src/Reassembly/Placed.antt =====
-- What holds of each segment at its place in the stream, for a fact `Q` about an offset and a
-- segment that trimming keeps: `push` of src/reassembly.rs keeps it for all that is held.
use tlscap.Prelude.{
  ℕ, ◌+◌, ◌-◌, ◌≤◌, ◌<◌, ◌≡◌, refl, List, [], ◌∷◌, ◌++◌, arith, ltb, leb, ◌==◌, length, Sorted,
  insert, Bool-cases, inl, inr, subst,
}
use tlscap.Reassembly.{
  Segment, StreamReassembler, is_empty, trimmed, deliver, pop_pending, drain_stale, drain_loop,
  drain_pending, evict_loop, store_pending, enforce_limits, buffer_pending, push_relative, push,
  relative_seq, get_or_insert,
}
use tlscap.Prelude.Words.{wrapping_sub}
use tlscap.Reassembly.Loops.{drain_induction, evict_induction}
use tlscap.Reassembly.Cases.{enforce_limits_cases, buffer_pending_cases, push_relative_cases}
use tlscap.Reassembly.WellFormed.{total, total-append}

-- Where the contiguous bytes begin: all before has been taken.
abbrev pub taken_until : StreamReassembler → ℕ
taken_until r = r.next_expected_relative - r.contiguous_len

module _ {ℓ} (Q : ℕ → Segment → Type ℓ) where
  -- The segments lie end to end, from offset `o` on.
  abbrev pub Laid : ℕ → List Segment → Type ℓ
  Laid o [] = Unit
  Laid o (seg ∷ segs) = Q o seg × Laid (o + length seg.bytes) segs

  abbrev pub PendingAll : Sorted Segment → Type ℓ
  PendingAll [] = Unit
  PendingAll ((k, seg) ∷ m) = Q k seg × PendingAll m

  pub record Placed (r : StreamReassembler) : Type ℓ where
    pub count : r.contiguous_len ≡ total r.contiguous
    pub behind : r.contiguous_len ≤ r.next_expected_relative
    pub laid : Laid (taken_until r) r.contiguous
    pub waiting : PendingAll r.pending

  Laid-append :
      (o : ℕ) (xs : List Segment) (seg : Segment)
      → Laid o xs
      → Q (o + total xs) seg
      → Laid o (xs ++ seg ∷ [])
  Laid-append o [] seg h q = (subst (λ k. Q k seg) (omega arith) q, tt)
  Laid-append o (x ∷ xs) seg h q =
      (h.0, Laid-append (o + length x.bytes) xs seg h.1 (subst (λ k. Q k seg) (omega arith) q))

  insert-PendingAll :
      (k : ℕ) (seg : Segment) (m : Sorted Segment)
      → Q k seg
      → PendingAll m
      → PendingAll (insert k seg m)
  insert-PendingAll k seg [] q h = (q, tt)
  insert-PendingAll k seg ((j, w) ∷ m) q h = elim (Bool-cases (ltb k j)) [
    | inl e ↦ rw e (q, h)
    | inr e ↦ elim (Bool-cases (j == k)) [
      | inl f ↦ rw (e, f) (q, h.1)
      | inr f ↦ rw (e, f) (h.0, insert-PendingAll k seg m q h.1)
    ]
  ]

  deliver-Placed :
      (seg : Segment) (r : StreamReassembler)
      → Q r.next_expected_relative seg
      → Placed r
      → Placed (deliver seg r)
  unfolding deliver
  deliver-Placed seg r q p = record {
    count = omega (arith, p.count, total-append r.contiguous (seg ∷ []));
    behind = omega (arith, p.behind);
    laid =
        let e : r.next_expected_relative + length seg.bytes - (r.contiguous_len + length seg.bytes)
            ≡ taken_until r =
          omega arith in
        rw e (
          Laid-append (taken_until r) r.contiguous seg p.laid
            (subst (λ k. Q k seg) (omega (arith, p.count, p.behind)) q));
    waiting = p.waiting;
  }

module _ {ℓ} (Q : ℕ → Segment → Type ℓ)
    (trims : (k n : ℕ) (seg : Segment)
      → Q k seg
      → n < length seg.bytes
      → Q (k + n) (trimmed n seg)) where
  pop-Placed :
      (key : ℕ) (seg : Segment) (rest : Sorted Segment) (r : StreamReassembler)
      → r.pending ≡ (key, seg) ∷ rest
      → Placed Q r
      → Q key seg × Placed Q (pop_pending seg rest r)
  unfolding pop_pending
  pop-Placed key seg rest r e p =
      let w : PendingAll Q ((key, seg) ∷ rest) = rw e at p.waiting in
      (w.0, record { count = p.count; behind = p.behind; laid = p.laid; waiting = w.1 })

  stale-Placed :
      (key : ℕ) (seg : Segment) (r : StreamReassembler)
      → key < r.next_expected_relative
      → Q key seg
      → Placed Q r
      → Placed Q (drain_stale key seg r)
  unfolding drain_stale
  stale-Placed key seg r lt q p =
      elim (Bool-cases (leb (key + length seg.bytes) r.next_expected_relative)) [
        | inl e ↦ rw e p
        | inr e ↦ rw e (
            deliver-Placed Q _ r
              (subst (λ k. Q k (trimmed (r.next_expected_relative - key) seg)) (omega arith)
                (trims key (r.next_expected_relative - key) seg q (ground arith)))
              p)
      ]

  drain_pending-Placed : (r : StreamReassembler) → Placed Q r → Placed Q (drain_pending r)
  unfolding drain_pending pop_pending
  drain_pending-Placed r p =
      let d = drain_loop r.pending r in
      let q : Placed Q d =
        drain_induction (Placed Q)
          (λ key seg rest s e lt h.
            let (q, h') = pop-Placed key seg rest s e h in stale-Placed key seg _ lt q h')
          (λ key seg rest s e eq h.
            let (q, h') = pop-Placed key seg rest s e h in
            deliver-Placed Q seg _ (subst (λ k. Q k seg) eq q) h')
          r.pending r refl p in
      record { count = q.count; behind = q.behind; laid = q.laid; waiting = q.waiting }

  enforce_limits-Placed :
      (later : ℕ) (r : StreamReassembler) → Placed Q r → Placed Q (enforce_limits later r).0
  enforce_limits-Placed later r p =
      enforce_limits_cases (λ x. Placed Q x.0) later r (λ _ _. p)
        (λ _. record { count = p.count; behind = p.behind; laid = p.laid; waiting = tt })
        (λ _ _.
          let q : Placed Q (evict_loop r.pending r 0).0 =
            evict_induction (λ s n. Placed Q s)
              (λ key seg rest s n e h. (pop-Placed key seg rest s e h).1) r.pending r 0 refl p in
          record { count = q.count; behind = q.behind; laid = q.laid; waiting = q.waiting })

  buffer_pending-Placed :
      (now later rel : ℕ) (seg : Segment) (r : StreamReassembler)
      → Q rel seg
      → Placed Q r
      → Placed Q (buffer_pending now later rel seg r).0
  unfolding store_pending
  buffer_pending-Placed now later rel seg r q p =
      let w : PendingAll Q (insert rel seg r.pending) =
        insert-PendingAll Q rel seg r.pending q p.waiting in
      buffer_pending_cases (λ x. Placed Q x.0) now later rel seg r (λ _ _ _. p)
        (λ _.
          enforce_limits-Placed later _
            (record { count = p.count; behind = p.behind; laid = p.laid; waiting = w }))
        (λ _ _ _.
          enforce_limits-Placed later _
            (record { count = p.count; behind = p.behind; laid = p.laid; waiting = w }))

  pub push_relative-Placed :
      (now later rel : ℕ) (seg : Segment) (r : StreamReassembler)
      → 0 < length seg.bytes
      → Q rel seg
      → Placed Q r
      → Placed Q (push_relative now later rel seg r).0
  push_relative-Placed now later rel seg r full q p =
      push_relative_cases (λ x. Placed Q x.0) now later rel seg r (λ _. p)
        (λ n e lt.
          drain_pending-Placed _
            (deliver-Placed Q _ r (subst (λ k. Q k (trimmed n seg)) e (trims rel n seg q lt)) p))
        (λ _. buffer_pending-Placed now later rel seg r q p) full

  -- A segment that holds `Q` at its offset keeps `Q` of all that is held.
  pub push-Placed :
      (now later seq : ℕ) (seg : Segment) (r : StreamReassembler)
      → (0 < length seg.bytes → Q (wrapping_sub seq (get_or_insert r.base_seq seq)) seg)
      → Placed Q r
      → Placed Q (push now later seq seg r).0
  unfolding push relative_seq
  push-Placed now later seq seg r q p = elim (Bool-cases (is_empty seg.bytes)) [
    | inl e ↦ rw e p
    | inr full ↦
        let filled : 0 < length seg.bytes = ground arith in
        rw full (
          push_relative-Placed now later _ seg _ filled (q filled)
            (record { count = p.count; behind = p.behind; laid = p.laid; waiting = p.waiting }))
  ]
