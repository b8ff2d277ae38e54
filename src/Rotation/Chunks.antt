-- ===== src/Rotation/Chunks.antt =====
-- The chunks hold what was written, and no more messages than they may.
use tlscap.Prelude.{
  ℕ, zero, suc, ◌+◌, ◌≤◌, ◌≡◌, refl, sym, ap, ◌∙◌, Bool, true, false, Option, none, some, List, [],
  ◌∷◌, ◌++◌, append_assoc, append-nil, Bool-cases, inl, inr, arith,
}
use tlscap.Rotation.{
  RotateBy, count, seconds, never, CurrentChunk, RotatingGzWriter, Io, Outcome, ok, io_error, panic,
  finish_current, open_new, should_rotate, and_then, rotate_if_needed, write_chunk, write_message,
}

-- The bytes of the finished chunks and of the open one, one behind the other.
abbrev pub concat : List CurrentChunk → List ℕ
concat [] = []
concat (c ∷ cs) = c.contents ++ concat cs

abbrev pub open_bytes : Option CurrentChunk → List ℕ
open_bytes none = []
open_bytes (some c) = c.contents

abbrev pub all_bytes : RotatingGzWriter → List ℕ
all_bytes w = concat w.files ++ open_bytes w.current

-- The most messages of a chunk: a count of 0 still takes one.
abbrev pub Within : RotateBy → CurrentChunk → Type 0
Within (count zero) c = c.messages_written ≤ 1
Within (count (suc n)) c = c.messages_written ≤ suc n
Within (seconds d) c = Unit {0}
Within never c = Unit {0}

abbrev AllWithin : RotateBy → List CurrentChunk → Type 0
AllWithin r [] = Unit {0}
AllWithin r (c ∷ cs) = Within r c × AllWithin r cs

abbrev OpenWithin : RotateBy → Option CurrentChunk → Type 0
OpenWithin r none = Unit {0}
OpenWithin r (some c) = Within r c

unfoldable pub Bounded : RotatingGzWriter → Type 0
Bounded w = AllWithin w.rotate_by w.files × OpenWithin w.rotate_by w.current

-- The file is created, the encoder takes the bytes and the encoder of the chunk before is finished.
pub record Works (io : Io) : Type 0 where
  pub creates : io.creates ≡ true
  pub writes : io.writes ≡ true
  pub finishes : io.finishes ≡ true

concat-append :
    (cs : List CurrentChunk) (c : CurrentChunk) → concat (cs ++ c ∷ []) ≡ concat cs ++ c.contents
concat-append [] c = append-nil c.contents
concat-append (d ∷ cs) c =
    ap (λ x. d.contents ++ x) (concat-append cs c)
    ∙ sym (append_assoc d.contents (concat cs) c.contents)

AllWithin-append :
    (r : RotateBy) (cs : List CurrentChunk) (c : CurrentChunk)
    → AllWithin r cs
    → Within r c
    → AllWithin r (cs ++ c ∷ [])
AllWithin-append r [] c a h = (h, tt)
AllWithin-append r (d ∷ cs) c a h = (a.0, AllWithin-append r cs c a.1 h)

-- A chunk with the first message.
first_Within : (r : RotateBy) (c : CurrentChunk) → c.messages_written ≡ 1 → Within r c
first_Within (count zero) c h = omega arith
first_Within (count (suc n)) c h = omega arith
first_Within (seconds d) c h = tt
first_Within never c h = tt

-- A chunk with one more message, when none was to be opened.
next_Within :
    (r : RotateBy) (c d : CurrentChunk) (now : ℕ)
    → should_rotate (some c) r now ≡ false
    → d.messages_written ≡ c.messages_written + 1
    → Within r d
next_Within (count zero) c d now h e = absurd (ground arith)
next_Within (count (suc n)) c d now h e = ground arith
next_Within (seconds s) c d now h e = tt
next_Within never c d now h e = tt

-- A write comes to an end with these bytes behind it and within the bounds.
pub record Wrote (w : RotatingGzWriter) (bytes : List ℕ) (result : Outcome × RotatingGzWriter)
    : Type 0 where
  pub after : RotatingGzWriter
  pub is : result ≡ (ok, after)
  pub rotate_by_kept : after.rotate_by ≡ w.rotate_by
  pub written : all_bytes after ≡ all_bytes w ++ bytes
  pub bounded : Bounded after

-- The writer with the open chunk named, for a split on whether it is there.
abbrev with_current : RotatingGzWriter → Option CurrentChunk → RotatingGzWriter
with_current w c = record w { current = c }

write_first :
    (io : Io) (bytes : List ℕ) (w : RotatingGzWriter)
    → Works io
    → Bounded (with_current w none)
    → Wrote (with_current w none) bytes (write_message io bytes (with_current w none))
unfolding write_message rotate_if_needed finish_current open_new Bounded
write_first io bytes w works b =
    rw (works.creates, works.writes)
      (record {
        after = _;
        is = refl;
        rotate_by_kept = refl;
        written = sym (ap (λ x. x ++ bytes) (append-nil (concat w.files)));
        bounded = (b.0, first_Within w.rotate_by _ refl);
      })

write_next :
    (io : Io) (bytes : List ℕ) (w : RotatingGzWriter) (c : CurrentChunk)
    → Works io
    → Bounded (with_current w (some c))
    → Wrote (with_current w (some c)) bytes (write_message io bytes (with_current w (some c)))
unfolding write_message rotate_if_needed finish_current open_new Bounded
write_next io bytes w c works b = elim (Bool-cases (should_rotate (some c) w.rotate_by io.now)) [
  | inl e ↦
      rw (e, works.finishes, works.creates, works.writes)
        (record {
          after = _;
          is = refl;
          rotate_by_kept = refl;
          written = ap (λ x. x ++ bytes) (concat-append w.files c);
          bounded =
              (AllWithin-append w.rotate_by w.files c b.0 b.1, first_Within w.rotate_by _ refl);
        })
  | inr e ↦
      rw (e, works.writes)
        (record {
          after = _;
          is = refl;
          rotate_by_kept = refl;
          written = sym (append_assoc (concat w.files) c.contents bytes);
          bounded = (b.0, next_Within w.rotate_by c _ io.now e refl);
        })
]

write_message-Wrote :
    (io : Io) (bytes : List ℕ) (w : RotatingGzWriter)
    → Works io
    → Bounded w
    → Wrote w bytes (write_message io bytes w)
write_message-Wrote io bytes w works b = at_current w.current b
  where
    at_current :
        (c : Option CurrentChunk)
        → Bounded (with_current w c)
        → Wrote (with_current w c) bytes (write_message io bytes (with_current w c))
    at_current none b' = write_first io bytes w works b'
    at_current (some c) b' = write_next io bytes w c works b'

-- The messages one after the other, up to an error.
unfoldable pub write_messages : List (Io × List ℕ) → RotatingGzWriter → Outcome × RotatingGzWriter
write_messages [] w = (ok, w)
write_messages ((io, bytes) ∷ messages) w =
    and_then (write_message io bytes w) (λ w'. write_messages messages w')

abbrev pub message_bytes : List (Io × List ℕ) → List ℕ
message_bytes [] = []
message_bytes ((io, bytes) ∷ messages) = bytes ++ message_bytes messages

unfoldable pub AllWork : List (Io × List ℕ) → Type 0
AllWork [] = Unit {0}
AllWork ((io, bytes) ∷ messages) = Works io × AllWork messages

-- When the calls to the system work, every sequence of messages is written, to the end and whatever the
-- clock says: the chunks one behind the other hold what was there and then exactly the messages in their
-- order, and no chunk holds more messages than the count to rotate by allows.
pub write_messages-Wrote :
    (messages : List (Io × List ℕ)) (w : RotatingGzWriter)
    → AllWork messages
    → Bounded w
    → Wrote w (message_bytes messages) (write_messages messages w)
unfolding write_messages AllWork
write_messages-Wrote [] w works b = record {
  after = w;
  is = refl;
  rotate_by_kept = refl;
  written = sym (append-nil (all_bytes w));
  bounded = b;
}
write_messages-Wrote ((io, bytes) ∷ messages) w works b =
    let first = write_message-Wrote io bytes w works.0 b in
    let rest = write_messages-Wrote messages first.after works.1 first.bounded in
    record {
      after = rest.after;
      is = ap (λ r. and_then r (λ w'. write_messages messages w')) first.is ∙ rest.is;
      rotate_by_kept = rest.rotate_by_kept ∙ first.rotate_by_kept;
      written =
          rest.written
          ∙ ap (λ x. x ++ message_bytes messages) first.written
          ∙ append_assoc (all_bytes w) bytes (message_bytes messages);
      bounded = rest.bounded;
    }

abbrev pub is_panic : Outcome → Bool
is_panic ok = false
is_panic io_error = false
is_panic panic = true

write_open :
    (io : Io) (bytes : List ℕ) (c : CurrentChunk) (w : RotatingGzWriter)
    → is_panic (write_chunk bytes io.writes (some c) w).0 ≡ false
write_open io bytes c w = elim (Bool-cases io.writes) [ inl e ↦ rw e | inr e ↦ rw e ]

open_and_write :
    (io : Io) (bytes : List ℕ) (w : RotatingGzWriter)
    → is_panic (and_then (open_new io w) (λ x. write_chunk bytes io.writes x.current x)).0 ≡ false
unfolding open_new
open_and_write io bytes w = elim (Bool-cases io.creates) [
  | inl e ↦ elim (Bool-cases io.writes) [ inl h ↦ rw (e, h) | inr h ↦ rw (e, h) ]
  | inr e ↦ rw e
]

-- No write panics, whichever calls to the system fail and whatever the state: the chunk that
-- `write_message` says is always open is open whenever it gets there.
pub write_message-no_panic :
    (io : Io) (bytes : List ℕ) (w : RotatingGzWriter)
    → is_panic (write_message io bytes w).0 ≡ false
unfolding write_message rotate_if_needed finish_current open_new
write_message-no_panic io bytes w = at_current w.current
  where
    at_current :
        (c : Option CurrentChunk) → is_panic (write_message io bytes (with_current w c)).0 ≡ false
    at_current none = open_and_write io bytes (with_current w none)
    at_current (some c) = elim (Bool-cases (should_rotate (some c) w.rotate_by io.now)) [
      | inl e ↦ elim (Bool-cases io.finishes) [
        | inl f ↦
            rw (e, f)
              (open_and_write io bytes (record w { current = none; files = w.files ++ c ∷ [] }))
        | inr f ↦ rw (e, f)
      ]
      | inr e ↦ rw e (write_open io bytes c (with_current w (some c)))
    ]
