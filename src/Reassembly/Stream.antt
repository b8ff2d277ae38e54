-- ===== src/Reassembly/Stream.antt =====
-- The refinement: a reassembler of src/reassembly.rs hands out a prefix of the byte stream that the
-- sender wrote, whatever order the segments arrive in.
use tlscap.Prelude.{
  ℕ, ◌∙◌, ap, sym, ◌+◌, ◌≡◌, refl, some, List, [], ◌∷◌, arith, leb, leb→le, length, Bool-cases, inl,
  inr, subst, length-append, length-take,
}
use tlscap.Prelude.Words.{wrapping_sub}
use tlscap.Reassembly.{Segment, PendingLimits, set_isn, with_pending_limits}
use tlscap.Reassembly.WellFormed.{WellFormed}
use tlscap.Reassembly.Placed.{Placed, taken_until, push-Placed}
use tlscap.Reassembly.Taking.{contents, length-contents}
use tlscap.Reassembly.Take.{take_bytes-Takes, Takes-WellFormed}
use tlscap.Reassembly.Invariant.{
  push-WellFormed, set_isn-WellFormed, with_pending_limits-WellFormed,
}
use tlscap.Reassembly.Session.{Event, arrives, wants, Session, step, run, opened}
use tlscap.Reassembly.Carries.{
  Carries, CarriesSegment, drop-Carries, take-Carries, append-Carries, trimmed-Carries,
  Laid-Carries, Carries-Laid, from_offset, Carries-from_offset,
}
use tlscap.Reassembly.Grows.{push-Grows}

module _ (stream : ℕ → ℕ) where
  -- Each segment is a true capture of the stream, at the offset that its sequence number says.
  abbrev pub Faithful : ℕ → List Event → Type 0
  Faithful isn [] = Unit {0}
  Faithful isn (arrives now later seq seg ∷ es) =
      (seg.range.end ≡ seg.range.start + length seg.bytes)
      × Carries stream (wrapping_sub seq isn) seg.bytes
      × Faithful isn es
  Faithful isn (wants n ∷ es) = Faithful isn es

  pub record Reads (isn : ℕ) (s : Session) : Type 0 where
    pub formed : WellFormed s.reassembler
    pub placed : Placed (CarriesSegment stream) s.reassembler
    pub anchored : s.reassembler.base_seq ≡ some isn
    pub prefix : Carries stream 0 s.output
    pub reached : length s.output ≡ taken_until s.reassembler

  pub arrives-Reads :
      (isn now later seq : ℕ) (seg : Segment) (s : Session)
      → seg.range.end ≡ seg.range.start + length seg.bytes
      → Carries stream (wrapping_sub seq isn) seg.bytes
      → Reads isn s
      → Reads isn (step s (arrives now later seq seg))
  unfolding step
  arrives-Reads isn now later seq seg s spans c h =
      let g = push-Grows now later seq isn seg s.reassembler h.anchored in
      let w = push-WellFormed now later seq seg s.reassembler spans h.formed in
      record {
        formed = w;
        placed =
            push-Placed (CarriesSegment stream) (trimmed-Carries stream) now later seq seg
              s.reassembler (λ _. rw h.anchored c) h.placed;
        anchored = g.base ∙ h.anchored;
        prefix = h.prefix;
        reached = omega (arith, h.reached, g.kept, w.delivered_counted, h.formed.delivered_counted);
      }

  pub wants-Reads : (isn n : ℕ) (s : Session) → Reads isn s → Reads isn (step s (wants n))
  unfolding step
  wants-Reads isn n s h = elim (Bool-cases (leb n s.reassembler.contiguous_len)) [
    | inr short ↦ rw short h
    | inl enough ↦
        let r = s.reassembler in
        let (t, e, q) = take_bytes-Takes n r h.formed (leb→le _ _ enough) in
        let w = Takes-WellFormed n r t h.formed q in
        let all : Carries stream (taken_until r) (contents r.contiguous) =
          Laid-Carries stream (taken_until r) r.contiguous h.placed.laid in
        let gone : taken_until t.reassembler ≡ taken_until r + n =
          omega (arith, q.left, q.next, h.formed.delivered_counted) in
        rw (enough, e)
          (record {
            formed = w;
            placed = record {
              count = w.contiguous_counted;
              behind = w.delivered_counted;
              laid = rw gone (
                  Carries-Laid stream (taken_until r + n) t.reassembler.contiguous (
                    rw q.rest (drop-Carries stream n (taken_until r) (contents r.contiguous) all)));
              waiting = rw q.pending h.placed.waiting;
            };
            anchored = q.base ∙ h.anchored;
            prefix = append-Carries stream 0 s.output t.out h.prefix (
                subst (λ k. Carries stream k t.out) (sym h.reached ∙ omega arith)
                  (rw q.first (take-Carries stream n (taken_until r) (contents r.contiguous) all)));
            reached = omega (
              arith,
              gone,
              h.reached,
              length-append s.output t.out,
              ap length q.first,
              length-take n (contents r.contiguous),
              length-contents r.contiguous,
              h.formed.contiguous_counted,
            );
          })
  ]

  pub run-Reads :
      (isn : ℕ) (s : Session) (es : List Event)
      → Faithful isn es
      → Reads isn s
      → Reads isn (run s es)
  unfolding run
  run-Reads isn s [] f h = h
  run-Reads isn s (arrives now later seq seg ∷ es) f h =
      run-Reads isn (step s (arrives now later seq seg)) es f.2
        (arrives-Reads isn now later seq seg s f.0 f.1 h)
  run-Reads isn s (wants n ∷ es) f h = run-Reads isn (step s (wants n)) es f (wants-Reads isn n s h)

  pub opened-Reads : (limits : PendingLimits) (isn : ℕ) → Reads isn (opened limits isn)
  unfolding set_isn with_pending_limits
  opened-Reads limits isn = record {
    formed = set_isn-WellFormed isn _ (with_pending_limits-WellFormed limits);
    placed = record { count = refl; behind = omega arith; laid = tt; waiting = tt };
    anchored = refl;
    prefix = tt;
    reached = refl;
  }

  -- If every segment that arrives is a true capture of the stream at the offset of its sequence
  -- number, then after any arrivals, in any order and with any repeats, overlaps, abandoned gaps and
  -- reads between them, the bytes handed out are exactly the stream's first bytes, and what is ready
  -- to be read are the stream's next ones, up to the next expected byte.
  pub run-prefix :
      (limits : PendingLimits) (isn : ℕ) (es : List Event)
      → Faithful isn es
      → let s = run (opened limits isn) es in
        (s.output ≡ from_offset stream 0 (length s.output))
        × (contents s.reassembler.contiguous
            ≡ from_offset stream (length s.output) s.reassembler.contiguous_len)
        × (length s.output + s.reassembler.contiguous_len ≡ s.reassembler.next_expected_relative)
  run-prefix limits isn es f =
      let h = run-Reads isn (opened limits isn) es f (opened-Reads limits isn) in
      let r = (run (opened limits isn) es).reassembler in
      let n : length (contents r.contiguous) ≡ r.contiguous_len =
        length-contents r.contiguous ∙ sym h.formed.contiguous_counted in
      (
        Carries-from_offset stream 0 _ h.prefix,
        rw h.reached (
            Carries-from_offset stream (taken_until r) (contents r.contiguous)
              (Laid-Carries stream (taken_until r) r.contiguous h.placed.laid)
            ∙ ap (from_offset stream (taken_until r)) n),
        omega (arith, h.reached, h.formed.delivered_counted),
      )
