-- ===== src/Reassembly/Abandon.antt =====
-- The three limits of src/reassembly.rs: what an abandoned gap loses, and when none is abandoned.
use tlscap.Prelude.{
  ℕ, ◌∙◌, ap, sym, ◌+◌, ◌-◌, ◌≤◌, ◌≡◌, refl, false, some, [], ◌∷◌, ◌++◌, arith, length, Bool-cases,
  Option-cases, inl, inr, Sorted, insert, append-nil, append_assoc, length-insert_new,
}
use tlscap.Prelude.Words.{wrapping_sub}
use tlscap.Reassembly.{
  Segment, StreamReassembler, PushOutcome, gap_abandoned, is_empty, push, push_relative,
  relative_seq, get_or_insert, buffer_pending, enforce_limits, evict_loop, over_budget,
  age_exceeded, store_pending, pop_pending,
}
use tlscap.Reassembly.WellFormed.{WellFormed, IsSegment, pending_total}
use tlscap.Reassembly.Buffer.{pending_total-insert_new, lookup-le_total, insert_over}
use tlscap.Reassembly.Invariant.{rebase-WellFormed}
use tlscap.Reassembly.Loops.{evict_induction}
use tlscap.Reassembly.Cases.{enforce_limits_cases, buffer_pending_cases, push_relative_cases}
use tlscap.Reassembly.Coverage.{Lossless}

-- `gone` was pending and is lost, lowest first; `n` counts its bytes.
pub record Loses (before : Sorted Segment) (r s : StreamReassembler) (n : ℕ) : Type 0 where
  pub gone : Sorted Segment
  pub split : before ≡ gone ++ s.pending
  pub bytes : n ≡ pending_total gone
  pub next : s.next_expected_relative ≡ r.next_expected_relative
  pub contiguous : s.contiguous ≡ r.contiguous

pending_total-append :
    (xs ys : Sorted Segment) → pending_total (xs ++ ys) ≡ pending_total xs + pending_total ys
pending_total-append [] ys = omega arith
pending_total-append ((k, s) ∷ xs) ys = omega (arith, pending_total-append xs ys)

evict_loop-Loses :
    (r : StreamReassembler)
    → Loses r.pending r (evict_loop r.pending r 0).0 (evict_loop r.pending r 0).1
unfolding pop_pending
evict_loop-Loses r =
    evict_induction (Loses r.pending r)
      (λ key seg rest s n e h. record {
        gone = h.gone ++ (key, seg) ∷ [];
        split = h.split ∙ ap (◌++◌ h.gone) e ∙ sym (append_assoc h.gone ((key, seg) ∷ []) rest);
        bytes = omega (arith, h.bytes, pending_total-append h.gone ((key, seg) ∷ []));
        next = h.next;
        contiguous = h.contiguous;
      })
      r.pending r 0 refl
      (record { gone = []; split = refl; bytes = refl; next = refl; contiguous = refl })

-- What the outcome says of the step from `r`, when `before` was to be pending.
abbrev Reports : Sorted Segment → StreamReassembler → StreamReassembler × PushOutcome → Type 0
Reports before r x = (n : ℕ) → x.1 ≡ gap_abandoned n → Loses before r x.0 n

enforce_limits-Reports :
    (later : ℕ) (r : StreamReassembler)
    → r.pending_len ≡ pending_total r.pending
    → Reports r.pending r (enforce_limits later r)
enforce_limits-Reports later r c =
    enforce_limits_cases (Reports r.pending r) later r (λ _ _ n e. absurd (cc))
      (λ _ n e. record {
        gone = r.pending;
        split = sym (append-nil r.pending);
        bytes = ground (arith, c);
        next = refl;
        contiguous = refl;
      })
      (λ _ _ n e.
        let h = evict_loop-Loses r in
        record {
          gone = h.gone;
          split = h.split;
          bytes = ground (arith, h.bytes);
          next = h.next;
          contiguous = h.contiguous;
        })

record Pends (rel : ℕ) (seg : Segment) (r s : StreamReassembler) : Type 0 where
  pending : s.pending ≡ insert rel seg r.pending
  counted : s.pending_len ≡ pending_total s.pending
  next : s.next_expected_relative ≡ r.next_expected_relative
  contiguous : s.contiguous ≡ r.contiguous

Pends-Reports :
    (later rel : ℕ) (seg : Segment) (r s : StreamReassembler)
    → Pends rel seg r s
    → Reports (insert rel seg r.pending) r (enforce_limits later s)
Pends-Reports later rel seg r s p n e =
    let h = enforce_limits-Reports later s p.counted n e in
    record {
      gone = h.gone;
      split = sym p.pending ∙ h.split;
      bytes = h.bytes;
      next = h.next ∙ p.next;
      contiguous = h.contiguous ∙ p.contiguous;
    }

buffer_pending-Reports :
    (now later rel : ℕ) (seg : Segment) (r : StreamReassembler)
    → WellFormed r
    → Reports (insert rel seg r.pending) r (buffer_pending now later rel seg r)
unfolding store_pending
buffer_pending-Reports now later rel seg r w =
    buffer_pending_cases (Reports (insert rel seg r.pending) r) now later rel seg r
      (λ _ _ _ n e. absurd (cc))
      (λ e. Pends-Reports later rel seg r _ (record {
        pending = refl;
        counted = omega (arith, w.pending_counted, pending_total-insert_new rel seg r.pending e);
        next = refl;
        contiguous = refl;
      }))
      (λ old e lt. Pends-Reports later rel seg r _ (record {
        pending = refl;
        counted = omega (
          arith,
          w.pending_counted,
          lookup-le_total rel old r.pending e,
          insert_over _ rel seg old r.pending w.above e,
        );
        next = refl;
        contiguous = refl;
      }))

-- When a segment's arrival abandons a gap, the bytes reported are exactly those lost: with the new
-- segment among what is pending, the lowest entries go, the rest stays pending, and neither the
-- contiguous bytes nor the next expected byte change.
pub push_relative-Loses :
    (now later rel n : ℕ) (seg : Segment) (r : StreamReassembler)
    → WellFormed r
    → IsSegment seg
    → (push_relative now later rel seg r).1 ≡ gap_abandoned n
    → Loses (insert rel seg r.pending) r (push_relative now later rel seg r).0 n
push_relative-Loses now later rel n seg r w s =
    push_relative_cases (λ x. x.1 ≡ gap_abandoned n → Loses (insert rel seg r.pending) r x.0 n) now
      later rel seg r (λ _ e. absurd (cc)) (λ _ _ _ e. absurd (cc))
      (λ _. buffer_pending-Reports now later rel seg r w n) s.filled

-- The gap is young enough at the instant `later`.
abbrev pub Young : ℕ → ℕ → StreamReassembler → Type 0
Young now later r =
    (later - now ≤ r.limits.max_age)
    × ((since : ℕ) → r.pending_since ≡ some since → later - since ≤ r.limits.max_age)

fits-age :
    (now later rel : ℕ) (seg : Segment) (r : StreamReassembler)
    → Young now later r
    → age_exceeded later (store_pending now later rel seg r) ≡ false
unfolding store_pending
fits-age now later rel seg r y = elim (Option-cases r.pending_since) [
  | inl e ↦ ground arith
  | inr (since, e) ↦ ground (arith, y.1 since e)
]

enforce_limits-Lossless :
    (later : ℕ) (r : StreamReassembler)
    → over_budget r ≡ false
    → age_exceeded later r ≡ false
    → Lossless (enforce_limits later r).1
enforce_limits-Lossless later r o a =
    enforce_limits_cases (λ x. Lossless x.1) later r (λ _ _. tt) (λ b. absurd (cc))
      (λ b _. absurd (cc))

buffer_pending-Lossless :
    (now later rel : ℕ) (seg : Segment) (r : StreamReassembler)
    → WellFormed r
    → pending_total (insert rel seg r.pending) ≤ r.limits.max_bytes
    → length (insert rel seg r.pending) ≤ r.limits.max_packets
    → Young now later r
    → Lossless (buffer_pending now later rel seg r).1
unfolding store_pending over_budget
buffer_pending-Lossless now later rel seg r w b p y =
    buffer_pending_cases (λ x. Lossless x.1) now later rel seg r (λ _ _ _. tt)
      (λ e.
        enforce_limits-Lossless later _
          (ground (
            arith,
            w.pending_counted,
            length-insert_new rel seg r.pending e,
            pending_total-insert_new rel seg r.pending e,
          ))
          (fits-age now later rel seg r y))
      (λ old e lt.
        enforce_limits-Lossless later _
          (ground (
            arith,
            w.pending_counted,
            lookup-le_total rel old r.pending e,
            insert_over _ rel seg old r.pending w.above e,
          ))
          (fits-age now later rel seg r y))

-- What is pending with a segment in it, in the place of one at the same offset if there is one.
abbrev pub pending_with : ℕ → Segment → StreamReassembler → Sorted Segment
pending_with seq seg r = insert (wrapping_sub seq (get_or_insert r.base_seq seq)) seg r.pending

-- If what is pending with the segment in it, which replaces one at the same offset, is within both
-- caps, and the open gap is young enough, then `push` does not abandon a gap.
pub push_within_limits :
    (now later seq : ℕ) (seg : Segment) (r : StreamReassembler)
    → WellFormed r
    → pending_total (pending_with seq seg r) ≤ r.limits.max_bytes
    → length (pending_with seq seg r) ≤ r.limits.max_packets
    → Young now later r
    → Lossless (push now later seq seg r).1
unfolding push relative_seq
push_within_limits now later seq seg r w b p y = elim (Bool-cases (is_empty seg.bytes)) [
  | inl e ↦ rw e tt
  | inr full ↦ rw full (
      push_relative_cases (λ x. Lossless x.1) now later
        (wrapping_sub seq (get_or_insert r.base_seq seq)) seg
        (record r { base_seq = some (get_or_insert r.base_seq seq) }) (λ _. tt) (λ _ _ _. tt)
        (λ _. buffer_pending-Lossless now later _ seg _ (rebase-WellFormed _ r w) b p y)
        (ground arith))
]
