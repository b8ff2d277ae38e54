-- ===== src/Reassembly/Arrival.antt =====
-- Lossless reassembly: what has been delivered depends on which bytes arrived, and not on the order.
use tlscap.Prelude.{
  ℕ, ◌<◌, ◌↔◌, ◌⊎◌, List, [], ◌∷◌, arith, leb, leb→le, length, Bool-cases, inl, inr, subst,
}
use tlscap.Prelude.Words.{wrapping_sub}
use tlscap.Reassembly.{Segment, PendingLimits, push, get_or_insert, set_isn, with_pending_limits}
use tlscap.Reassembly.Session.{Event, arrives, wants, Session, step, run, opened}
use tlscap.Reassembly.Stream.{Faithful, Reads, arrives-Reads, wants-Reads, run-Reads, opened-Reads}
use tlscap.Reassembly.Take.{take_bytes-Takes}
use tlscap.Reassembly.Coverage.{Within, Covered-eq, Held, Lossless, push-Held, next-not-Held}

-- No arrival is answered by `gap_abandoned`.
abbrev pub NoLoss : Session → List Event → Type 0
NoLoss s [] = Unit {0}
NoLoss s (arrives now later seq seg ∷ es) =
    Lossless (push now later seq seg s.reassembler).1
    × NoLoss (step s (arrives now later seq seg)) es
NoLoss s (wants n ∷ es) = NoLoss (step s (wants n)) es

-- Some segment brings the byte at position `i`.
abbrev pub ArrivesAt : ℕ → ℕ → List Event → Type 0
ArrivesAt isn i [] = ⊥
ArrivesAt isn i (arrives now later seq seg ∷ es) =
    Within (wrapping_sub seq isn) (length seg.bytes) i ⊎ ArrivesAt isn i es
ArrivesAt isn i (wants n ∷ es) = ArrivesAt isn i es

module _ (stream : ℕ → ℕ) (isn i : ℕ) where
  arrives-Held :
      (now later seq : ℕ) (seg : Segment) (s : Session)
      → Reads stream isn s
      → Lossless (push now later seq seg s.reassembler).1
      → Held (step s (arrives now later seq seg)).reassembler i
        ↔ (Held s.reassembler i ⊎ Within (wrapping_sub seq isn) (length seg.bytes) i)
  unfolding step
  arrives-Held now later seq seg s h l =
      let r = s.reassembler in
      subst
        (λ o.
          Held (push now later seq seg r).0 i
          ↔ (Held r i ⊎ Within (wrapping_sub seq (get_or_insert o seq)) (length seg.bytes) i))
        h.anchored (push-Held now later seq i seg r h.formed l)

  wants-Held :
      (n : ℕ) (s : Session)
      → Reads stream isn s
      → Held (step s (wants n)).reassembler i ↔ Held s.reassembler i
  unfolding step
  wants-Held n s h = elim (Bool-cases (leb n s.reassembler.contiguous_len)) [
    | inr short ↦ rw short (λ x. x, λ x. x)
    | inl enough ↦
        let (t, e, q) = take_bytes-Takes n s.reassembler h.formed (leb→le _ _ enough) in
        rw (enough, e)
          (ground
            (arith, q.next, Covered-eq t.reassembler.pending s.reassembler.pending i q.pending))
  ]

  run-Held :
      (s : Session) (es : List Event)
      → Faithful stream isn es
      → Reads stream isn s
      → NoLoss s es
      → Held (run s es).reassembler i ↔ (Held s.reassembler i ⊎ ArrivesAt isn i es)
  unfolding run
  run-Held s [] f h l = ground arith
  run-Held s (arrives now later seq seg ∷ es) f h l = ground (
    arith,
    arrives-Held now later seq seg s h l.0,
    run-Held (step s (arrives now later seq seg)) es f.2
        (arrives-Reads stream isn now later seq seg s f.0 f.1 h) l.1,
  )
  run-Held s (wants n ∷ es) f h l =
      ground
        (arith, wants-Held n s h, run-Held (step s (wants n)) es f (wants-Reads stream isn n s h) l)

opened-Held : (limits : PendingLimits) (isn i : ℕ) → ¬ (Held (opened limits isn).reassembler i)
unfolding set_isn with_pending_limits
opened-Held limits isn i h = ground arith

-- If every segment that arrives is a true capture of the stream at the offset of its sequence number,
-- which is one of 32 bits, and no gap is abandoned, then after any arrivals and reads, in any order, the
-- next expected byte is the first position that no segment has brought: every position before it has
-- arrived, and it has not.
pub run-first_missing :
    (stream : ℕ → ℕ) (limits : PendingLimits) (isn : ℕ) (es : List Event)
    → Faithful stream isn es
    → NoLoss (opened limits isn) es
    → let next = (run (opened limits isn) es).reassembler.next_expected_relative in
      ((i : ℕ) → i < next → ArrivesAt isn i es) × (¬ (ArrivesAt isn next es))
run-first_missing stream limits isn es f l =
    let s = opened limits isn in
    let start = opened-Reads stream limits isn in
    let r = (run s es).reassembler in
    let same = λ (i : ℕ). run-Held stream isn i s es f start l in
    (
      λ i lt. elim ((same i).0 (inl lt)) [
        | inl h ↦ absurd (opened-Held limits isn i h)
        | inr a ↦ a
      ],
      λ a.
          next-not-Held r (run-Reads stream isn s es f start).formed
            ((same r.next_expected_relative).1 (inr a)),
    )
