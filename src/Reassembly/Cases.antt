-- ===== src/Reassembly/Cases.antt =====
-- The ways through `push_relative`, `buffer_pending` and the limits of src/reassembly.rs: what
-- holds on each of them holds of the result.
use tlscap.Prelude.{
  ℕ, ◌+◌, ◌-◌, ◌≤◌, ◌<◌, ◌≡◌, refl, true, false, none, some, [], arith, ltb, leb, ◌==◌, leb→le,
  ==_iff, length, lookup, Bool-cases, Option-cases, inl, inr,
}
use tlscap.Reassembly.{
  Segment, StreamReassembler, PushOutcome, delivered, duplicate_discarded, buffered_out_of_order,
  gap_abandoned, trimmed, deliver, drain_pending, reset_clock, over_budget, evict_loop,
  store_pending, enforce_limits, buffer_pending, place, push_relative, age_exceeded,
}

-- Everything pending is given up.
abbrev pub cleared : StreamReassembler → StreamReassembler
cleared r = record r { pending = []; pending_len = 0; pending_since = none }

abbrev pub evicted : StreamReassembler → StreamReassembler × ℕ
evicted r = evict_loop r.pending r 0

-- The three ways on from the insertion.
pub enforce_limits_cases {ℓ} :
    (P : StreamReassembler × PushOutcome → Type ℓ) (later : ℕ) (r : StreamReassembler)
    → (over_budget r ≡ false → age_exceeded later r ≡ false → P (r, buffered_out_of_order))
    → (age_exceeded later r ≡ true → P (cleared r, gap_abandoned r.pending_len))
    → (over_budget r ≡ true
        → age_exceeded later r ≡ false
        → P (reset_clock (evicted r).0, gap_abandoned (evicted r).1))
    → P (enforce_limits later r)
unfolding enforce_limits
enforce_limits_cases P later r fits old over = elim (Bool-cases (age_exceeded later r)) [
  | inl a ↦ elim (Bool-cases (over_budget r)) [
    | inl o ↦ rw (o, a) (old a)
    | inr o ↦ rw (o, a) (old a)
  ]
  | inr a ↦ elim (Bool-cases (over_budget r)) [
    | inl o ↦ rw (o, a) (over o a)
    | inr o ↦ rw (o, a) (fits o a)
  ]
]

-- `buffer_pending` inserts nothing, a new key, or a longer segment at a key.
pub buffer_pending_cases {ℓ} :
    (P : StreamReassembler × PushOutcome → Type ℓ) (now later rel : ℕ) (seg : Segment)
    (r : StreamReassembler)
    → ((old : Segment)
        → lookup rel r.pending ≡ some old
        → length seg.bytes ≤ length old.bytes
        → P (r, duplicate_discarded))
    → (lookup rel r.pending ≡ none → P (enforce_limits later (store_pending now later rel seg r)))
    → ((old : Segment)
        → lookup rel r.pending ≡ some old
        → length old.bytes < length seg.bytes
        → P (
            enforce_limits later (
              store_pending now later rel seg
                (record r { pending_len = r.pending_len - length old.bytes }))))
    → P (buffer_pending now later rel seg r)
unfolding buffer_pending
buffer_pending_cases P now later rel seg r covered new longer =
    elim (Option-cases (lookup rel r.pending)) [
      | inl e ↦ rw (e, buffer_pending) (new e)
      | inr (old, e) ↦ elim (Bool-cases (leb (length seg.bytes) (length old.bytes))) [
        | inl t ↦ rw (e, buffer_pending, t) (covered old e (leb→le _ _ t))
        | inr t ↦ rw (e, buffer_pending, t) (longer old e (ground arith))
      ]
    ]

trimmed-zero : (seg : Segment) → trimmed 0 seg ≡ seg
unfolding trimmed
trimmed-zero seg = ground arith

-- A segment is a duplicate, is delivered without its first `n` bytes, or is buffered.
pub push_relative_cases {ℓ} :
    (P : StreamReassembler × PushOutcome → Type ℓ) (now later rel : ℕ) (seg : Segment)
    (r : StreamReassembler)
    → (rel + length seg.bytes ≤ r.next_expected_relative → P (r, duplicate_discarded))
    → ((n : ℕ)
        → rel + n ≡ r.next_expected_relative
        → n < length seg.bytes
        → P (drain_pending (deliver (trimmed n seg) r), delivered))
    → (r.next_expected_relative < rel → P (buffer_pending now later rel seg r))
    → 0 < length seg.bytes
    → P (push_relative now later rel seg r)
unfolding push_relative place
push_relative_cases P now later rel seg r old next ahead full =
    elim (Bool-cases (leb (rel + length seg.bytes) r.next_expected_relative)) [
      | inl d ↦ rw d (old (leb→le _ _ d))
      | inr d ↦ elim (Bool-cases (ltb rel r.next_expected_relative)) [
        | inl o ↦
            rw (d, o, (==_iff r.next_expected_relative r.next_expected_relative).1 refl)
              (next (r.next_expected_relative - rel) (ground arith) (ground arith))
        | inr o ↦ elim (Bool-cases (rel == r.next_expected_relative)) [
          | inl e ↦ rw (d, o, e) (rw (trimmed-zero seg) at (next 0 (ground arith) full))
          | inr e ↦ rw (d, o, e) (ahead (ground arith))
        ]
      ]
    ]
