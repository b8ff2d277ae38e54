-- ===== src/Reassembly/Grows.antt =====
-- What `push` of src/reassembly.rs never does: it changes no base once there is one, no limit, moves
-- no expected byte back, and takes no byte out of the contiguous ones.
use tlscap.Prelude.{
  ℕ, ◌∙◌, ◌+◌, ◌≤◌, ◌<◌, ◌≡◌, refl, Option, none, some, arith, leb, length, Sorted, Bool-cases, inl,
  inr,
}
use tlscap.Reassembly.{
  Segment, StreamReassembler, is_empty, deliver, pop_pending, drain_stale, drain_loop,
  drain_pending, evict_loop, store_pending, enforce_limits, buffer_pending, push_relative, push,
  relative_seq, get_or_insert,
}
use tlscap.Prelude.Words.{wrapping_sub}
use tlscap.Reassembly.Loops.{drain_induction, evict_induction}
use tlscap.Reassembly.Cases.{enforce_limits_cases, buffer_pending_cases, push_relative_cases}

pub record Grows (r s : StreamReassembler) : Type 0 where
  pub base : s.base_seq ≡ r.base_seq
  pub limits : s.limits ≡ r.limits
  pub forward : r.next_expected_relative ≤ s.next_expected_relative
  pub kept :
      s.next_expected_relative + r.contiguous_len ≡ r.next_expected_relative + s.contiguous_len

Grows-refl : (r : StreamReassembler) → Grows r r
Grows-refl r = record { base = refl; limits = refl; forward = omega arith; kept = refl }

deliver-Grows : (r s : StreamReassembler) (seg : Segment) → Grows r s → Grows r (deliver seg s)
unfolding deliver
deliver-Grows r s seg g = record {
  base = g.base;
  limits = g.limits;
  forward = omega (arith, g.forward);
  kept = omega (arith, g.kept);
}

pop-Grows :
    (r s : StreamReassembler) (seg : Segment) (rest : Sorted Segment)
    → Grows r s
    → Grows r (pop_pending seg rest s)
unfolding pop_pending
pop-Grows r s seg rest g = record {
  base = g.base;
  limits = g.limits;
  forward = g.forward;
  kept = g.kept;
}

stale-Grows :
    (r s : StreamReassembler) (key : ℕ) (seg : Segment)
    → Grows r s
    → Grows r (drain_stale key seg s)
unfolding drain_stale
stale-Grows r s key seg g =
    elim (Bool-cases (leb (key + length seg.bytes) s.next_expected_relative)) [
      | inl e ↦ rw e g
      | inr e ↦ rw e (deliver-Grows r s _ g)
    ]

drain_pending-Grows : (r s : StreamReassembler) → Grows r s → Grows r (drain_pending s)
unfolding drain_pending
drain_pending-Grows r s g =
    let h : Grows r (drain_loop s.pending s) =
      drain_induction (Grows r)
        (λ key seg rest t e lt k. stale-Grows r _ key seg (pop-Grows r t seg rest k))
        (λ key seg rest t e eq k. deliver-Grows r _ seg (pop-Grows r t seg rest k)) s.pending s refl
        g in
    record { base = h.base; limits = h.limits; forward = h.forward; kept = h.kept }

enforce_limits-Grows :
    (later : ℕ) (r s : StreamReassembler) → Grows r s → Grows r (enforce_limits later s).0
enforce_limits-Grows later r s g =
    enforce_limits_cases (λ x. Grows r x.0) later s (λ _ _. g)
      (λ _. record { base = g.base; limits = g.limits; forward = g.forward; kept = g.kept })
      (λ _ _.
        let h : Grows r (evict_loop s.pending s 0).0 =
          evict_induction (λ t n. Grows r t) (λ key seg rest t n e k. pop-Grows r t seg rest k)
            s.pending s 0 refl g in
        record { base = h.base; limits = h.limits; forward = h.forward; kept = h.kept })

buffer_pending-Grows :
    (now later rel : ℕ) (seg : Segment) (r : StreamReassembler)
    → Grows r (buffer_pending now later rel seg r).0
unfolding store_pending
buffer_pending-Grows now later rel seg r =
    let same = Grows-refl r in
    buffer_pending_cases (λ x. Grows r x.0) now later rel seg r (λ _ _ _. same)
      (λ _.
        enforce_limits-Grows later r _
          (record { base = refl; limits = refl; forward = same.forward; kept = refl }))
      (λ _ _ _.
        enforce_limits-Grows later r _
          (record { base = refl; limits = refl; forward = same.forward; kept = refl }))

pub push_relative-Grows :
    (now later rel : ℕ) (seg : Segment) (r : StreamReassembler)
    → 0 < length seg.bytes
    → Grows r (push_relative now later rel seg r).0
push_relative-Grows now later rel seg r full =
    push_relative_cases (λ x. Grows r x.0) now later rel seg r (λ _. Grows-refl r)
      (λ n e lt. drain_pending-Grows r _ (deliver-Grows r r _ (Grows-refl r)))
      (λ _. buffer_pending-Grows now later rel seg r) full

-- On a reassembler that has its base.
pub push-Grows :
    (now later seq isn : ℕ) (seg : Segment) (r : StreamReassembler)
    → r.base_seq ≡ some isn
    → Grows r (push now later seq seg r).0
unfolding push relative_seq
push-Grows now later seq isn seg r b = elim (Bool-cases (is_empty seg.bytes)) [
  | inl e ↦ rw e (Grows-refl r)
  | inr full ↦
      let g =
        push_relative-Grows now later (wrapping_sub seq (get_or_insert r.base_seq seq)) seg
          (record r { base_seq = some (get_or_insert r.base_seq seq) }) (ground arith) in
      rw full (record {
        base = g.base ∙ rebase r.base_seq seq isn b;
        limits = g.limits;
        forward = g.forward;
        kept = g.kept;
      })
]
  where
    rebase : (o : Option ℕ) (x y : ℕ) → o ≡ some y → some (get_or_insert o x) ≡ o
    rebase none x y e = cc
    rebase (some z) x y e = refl
