-- ===== src/Reassembly/Coverage.antt =====
-- Which positions of the stream a reassembler of src/reassembly.rs holds, delivered or pending.
use tlscap.Prelude.{
  ℕ, suc, sym, ◌+◌, ◌-◌, ◌≤◌, ◌<◌, ◌≡◌, ◌↔◌, ◌⊎◌, refl, none, some, [], ◌∷◌, arith, length,
  length-drop, Sorted, lookup, insert, Ascending, Bool-cases, inl, inr, subst,
}
use tlscap.Prelude.Words.{wrapping_sub}
use tlscap.Reassembly.{
  Segment, StreamReassembler, PushOutcome, gap_abandoned, is_empty, trimmed, deliver, pop_pending,
  drain_stale, drain_pending, store_pending, enforce_limits, buffer_pending, push_relative, push,
  relative_seq, get_or_insert,
}
use tlscap.Reassembly.Loops.{drain_induction}
use tlscap.Reassembly.Cases.{enforce_limits_cases, buffer_pending_cases, push_relative_cases}
use tlscap.Reassembly.WellFormed.{WellFormed}
use tlscap.Reassembly.Invariant.{rebase-WellFormed}

-- Position `i` lies in the `n` bytes from `k` on.
abbrev pub Within : ℕ → ℕ → ℕ → Type 0
Within k n i = (k ≤ i) × (i < k + n)

abbrev pub Covered : Sorted Segment → ℕ → Type 0
Covered [] i = ⊥
Covered ((k, seg) ∷ m) i = Within k (length seg.bytes) i ⊎ Covered m i

-- The byte at position `i` has been delivered or is pending.
abbrev pub Held : StreamReassembler → ℕ → Type 0
Held r i = (i < r.next_expected_relative) ⊎ Covered r.pending i

pub above-Covered : (lo i : ℕ) (m : Sorted Segment) → Ascending lo m → i < lo → ¬ (Covered m i)
above-Covered lo i [] a h c = c
above-Covered lo i ((k, seg) ∷ m) a h (inl c) = omega arith
above-Covered lo i ((k, seg) ∷ m) a h (inr c) = above-Covered (suc k) i m a.1 (omega arith) c

Covered-insert_new :
    (k i : ℕ) (seg : Segment) (m : Sorted Segment)
    → lookup k m ≡ none
    → Covered (insert k seg m) i ↔ (Within k (length seg.bytes) i ⊎ Covered m i)
Covered-insert_new k i seg [] e = (λ h. h, λ h. h)
Covered-insert_new k i seg ((j, w) ∷ m) e = ground (arith, Covered-insert_new k i seg m)

Covered-insert_longer :
    (lo k i : ℕ) (seg old : Segment) (m : Sorted Segment)
    → Ascending lo m
    → lookup k m ≡ some old
    → length old.bytes ≤ length seg.bytes
    → Covered (insert k seg m) i ↔ (Within k (length seg.bytes) i ⊎ Covered m i)
Covered-insert_longer lo k i seg old [] a e h = absurd (cc)
Covered-insert_longer lo k i seg old ((j, w) ∷ m) a e h =
    ground (arith, Covered-insert_longer (suc j) k i seg old m a.1)

Covered-lookup :
    (k i : ℕ) (old : Segment) (m : Sorted Segment)
    → lookup k m ≡ some old
    → Within k (length old.bytes) i
    → Covered m i
Covered-lookup k i old [] e h = absurd (cc)
Covered-lookup k i old ((j, w) ∷ m) e h = ground (arith, Covered-lookup k i old m)

pub Covered-eq : (l m : Sorted Segment) (i : ℕ) → l ≡ m → Covered l i ↔ Covered m i
Covered-eq l m i e = (λ h. subst (λ x. Covered x i) e h, λ h. subst (λ x. Covered x i) (sym e) h)

stale-Held :
    (key i : ℕ) (seg : Segment) (rest : Sorted Segment) (r : StreamReassembler)
    → r.pending ≡ (key, seg) ∷ rest
    → key < r.next_expected_relative
    → Held (drain_stale key seg (pop_pending seg rest r)) i ↔ Held r i
unfolding drain_stale pop_pending
stale-Held key i seg rest r e lt = ground (
  arith,
  Covered-eq r.pending ((key, seg) ∷ rest) i e,
  length-drop (r.next_expected_relative - key) seg.bytes,
)

exact-Held :
    (key i : ℕ) (seg : Segment) (rest : Sorted Segment) (r : StreamReassembler)
    → r.pending ≡ (key, seg) ∷ rest
    → key ≡ r.next_expected_relative
    → Held (deliver seg (pop_pending seg rest r)) i ↔ Held r i
unfolding deliver pop_pending
exact-Held key i seg rest r e eq = ground (arith, Covered-eq r.pending ((key, seg) ∷ rest) i e)

drain_pending-Held : (i : ℕ) (r : StreamReassembler) → Held (drain_pending r) i ↔ Held r i
unfolding drain_pending
drain_pending-Held i r =
    drain_induction (λ s. Held s i ↔ Held r i)
      (λ key seg rest s e lt h.
        let g = stale-Held key i seg rest s e lt in (λ x. h.0 (g.0 x), λ x. g.1 (h.1 x)))
      (λ key seg rest s e eq h.
        let g = exact-Held key i seg rest s e eq in (λ x. h.0 (g.0 x), λ x. g.1 (h.1 x)))
      r.pending r refl (λ h. h, λ h. h)

deliver-Held :
    (i rel n : ℕ) (seg : Segment) (r : StreamReassembler)
    → rel + n ≡ r.next_expected_relative
    → n < length seg.bytes
    → Held (deliver (trimmed n seg) r) i ↔ (Held r i ⊎ Within rel (length seg.bytes) i)
unfolding deliver trimmed
deliver-Held i rel n seg r e lt = ground (arith, length-drop n seg.bytes)

-- The outcome is no loss.
abbrev pub Lossless : PushOutcome → Type 0
Lossless (gap_abandoned n) = ⊥
Lossless o = Unit {0}

-- Nothing held before is lost, the new segment is held, and nothing else is.
abbrev Adds : StreamReassembler → ℕ → Segment → ℕ → StreamReassembler × PushOutcome → Type 0
Adds r rel seg i x = Lossless x.1 → Held x.0 i ↔ (Held r i ⊎ Within rel (length seg.bytes) i)

enforce_limits-Adds :
    (later rel i : ℕ) (seg : Segment) (r s : StreamReassembler)
    → Held s i ↔ (Held r i ⊎ Within rel (length seg.bytes) i)
    → Adds r rel seg i (enforce_limits later s)
enforce_limits-Adds later rel i seg r s h =
    enforce_limits_cases (Adds r rel seg i) later s (λ _ _ _. h) (λ _ l. absurd l)
      (λ _ _ l. absurd l)

buffer_pending-Adds :
    (now later rel i : ℕ) (seg : Segment) (r : StreamReassembler)
    → WellFormed r
    → Adds r rel seg i (buffer_pending now later rel seg r)
unfolding store_pending
buffer_pending-Adds now later rel i seg r w =
    buffer_pending_cases (Adds r rel seg i) now later rel seg r
      (λ old e le _. ground (arith, Covered-lookup rel i old r.pending e))
      (λ e.
        enforce_limits-Adds later rel i seg r _
          (ground (arith, Covered-insert_new rel i seg r.pending e)))
      (λ old e lt.
        enforce_limits-Adds later rel i seg r _
          (ground (arith, Covered-insert_longer _ rel i seg old r.pending w.above e)))

pub push_relative-Adds :
    (now later rel i : ℕ) (seg : Segment) (r : StreamReassembler)
    → 0 < length seg.bytes
    → WellFormed r
    → Adds r rel seg i (push_relative now later rel seg r)
push_relative-Adds now later rel i seg r full w =
    push_relative_cases (Adds r rel seg i) now later rel seg r (λ old _. ground arith)
      (λ n e lt _.
        let d = drain_pending-Held i (deliver (trimmed n seg) r) in
        let g = deliver-Held i rel n seg r e lt in (λ x. g.0 (d.0 x), λ x. d.1 (g.1 x)))
      (λ _. buffer_pending-Adds now later rel i seg r w) full

-- If `push` reports no abandoned gap, then afterwards the reassembler holds exactly the positions
-- that it held before and those of the new segment.
pub push-Held :
    (now later seq i : ℕ) (seg : Segment) (r : StreamReassembler)
    → WellFormed r
    → Lossless (push now later seq seg r).1
    → Held (push now later seq seg r).0 i
      ↔ (Held r i ⊎ Within (wrapping_sub seq (get_or_insert r.base_seq seq)) (length seg.bytes) i)
unfolding push relative_seq
push-Held now later seq i seg r w = elim (Bool-cases (is_empty seg.bytes)) [
  | inl e ↦ rw e (λ _. (λ h. inl h, λ h. ground arith))
  | inr full ↦ rw full (
      push_relative-Adds now later (wrapping_sub seq (get_or_insert r.base_seq seq)) i seg
        (record r { base_seq = some (get_or_insert r.base_seq seq) }) (ground arith)
        (rebase-WellFormed (some (get_or_insert r.base_seq seq)) r w))
]

-- The next expected byte of a well-formed reassembler is the first that it does not hold.
pub next-not-Held : (r : StreamReassembler) → WellFormed r → ¬ (Held r r.next_expected_relative)
next-not-Held r w (inl h) = omega arith
next-not-Held r w (inr c) = above-Covered _ _ r.pending w.above (omega arith) c
