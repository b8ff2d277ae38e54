-- ===== src/Main/Outputs.antt =====
-- `Output` of src/main.rs, and what becomes of the texts that the loop hands to it.
use tlscap.Prelude.{
  ℕ, ◌≡◌, refl, sym, ap, ◌∙◌, Bool, true, false, List, [], ◌∷◌, ◌++◌, append_assoc, append-nil,
  if◌then◌else◌, bytes_eq, Bool-cases, inl, inr,
}
use tlscap.Text.{codes}
use tlscap.Rotation.{
  RotateBy, FilePath, RotatingGzWriter, with_compression, Io, Outcome, ok, io_error, panic,
  and_then, write_message, finish_current,
}
use tlscap.Rotation.Chunks.{
  Bounded, AllWork, all_bytes, message_bytes, write_messages, write_messages-Wrote,
}

-- Standard output with the bytes that it has taken, or the chunks.
pub data Output : Type 0 where
  stdout : List ℕ → Output
  rotating : RotatingGzWriter → Output

-- The path that a text stands for is a parameter.
pub new_output : (List ℕ → FilePath) → List ℕ → RotateBy → Output
new_output path_of prefix rotate_by =
    if bytes_eq prefix (codes "-")
    then stdout []
    else rotating (with_compression (path_of prefix) rotate_by)

abbrev rotated : Outcome × RotatingGzWriter → Outcome × Output
rotated (o, w) = (o, rotating w)

abbrev stdout_outcome : Bool → Outcome
stdout_outcome true = ok
stdout_outcome false = io_error

-- `write`: to standard output with a flush.
pub write_output : Io → List ℕ → Output → Outcome × Output
write_output io bytes (stdout taken) = (stdout_outcome io.writes, stdout (taken ++ bytes))
write_output io bytes (rotating w) = rotated (write_message io bytes w)

pub finish_output : Io → Output → Outcome × Output
finish_output io (stdout taken) = (stdout_outcome io.finishes, stdout taken)
finish_output io (rotating w) = rotated (finish_current io w)

-- `?` behind each write of the loop.
abbrev and_then_output : Outcome × Output → (Output → Outcome × Output) → Outcome × Output
and_then_output (ok, out) f = f out
and_then_output (io_error, out) f = (io_error, out)
and_then_output (panic, out) f = (panic, out)

pub write_outputs : List (Io × List ℕ) → Output → Outcome × Output
write_outputs [] out = (ok, out)
write_outputs ((io, text) ∷ texts) out =
    and_then_output (write_output io text out) (λ out'. write_outputs texts out')

abbrev pub output_bytes : Output → List ℕ
output_bytes (stdout taken) = taken
output_bytes (rotating w) = all_bytes w

-- Texts come to an end in an output with these bytes.
pub record Delivered (bytes : List ℕ) (result : Outcome × Output) : Type 0 where
  pub after : Output
  pub is : result ≡ (ok, after)
  pub holds : output_bytes after ≡ bytes

stdout-Delivered :
    (texts : List (Io × List ℕ)) (taken : List ℕ)
    → AllWork texts
    → Delivered (taken ++ message_bytes texts) (write_outputs texts (stdout taken))
unfolding write_outputs write_output AllWork
stdout-Delivered [] taken works = record {
  after = stdout taken;
  is = refl;
  holds = sym (append-nil taken);
}
stdout-Delivered ((io, text) ∷ texts) taken works =
    let rest = stdout-Delivered texts (taken ++ text) works.1 in
    rw (works.0.writes) (record {
      after = rest.after;
      is = rest.is;
      holds = rest.holds ∙ append_assoc taken text (message_bytes texts);
    })

rotated-and_then :
    (r : Outcome × RotatingGzWriter) (f : Output → Outcome × Output)
    (g : RotatingGzWriter → Outcome × RotatingGzWriter)
    → ((w : RotatingGzWriter) → f (rotating w) ≡ rotated (g w))
    → and_then_output (rotated r) f ≡ rotated (and_then r g)
rotated-and_then (ok, w) f g h = h w
rotated-and_then (io_error, w) f g h = refl
rotated-and_then (panic, w) f g h = refl

write_outputs-rotating :
    (texts : List (Io × List ℕ)) (w : RotatingGzWriter)
    → write_outputs texts (rotating w) ≡ rotated (write_messages texts w)
unfolding write_outputs write_output write_messages
write_outputs-rotating [] w = refl
write_outputs-rotating ((io, text) ∷ texts) w =
    rotated-and_then (write_message io text w) (λ out. write_outputs texts out)
      (λ w'. write_messages texts w') (λ w'. write_outputs-rotating texts w')

-- When the calls to the system work, a new output takes all texts to the end and holds exactly these in
-- their order, on standard output or in its chunks.
pub write_outputs-Delivered :
    (path_of : List ℕ → FilePath) (prefix : List ℕ) (rotate_by : RotateBy)
    (texts : List (Io × List ℕ))
    → AllWork texts
    → Delivered (message_bytes texts) (write_outputs texts (new_output path_of prefix rotate_by))
unfolding new_output with_compression Bounded
write_outputs-Delivered path_of prefix rotate_by texts works =
    elim (Bool-cases (bytes_eq prefix (codes "-"))) [
      | inl e ↦ rw e (stdout-Delivered texts [] works)
      | inr e ↦
          let w = with_compression (path_of prefix) rotate_by in
          let wrote = write_messages-Wrote texts w works (tt, tt) in
          rw e (record {
            after = rotating wrote.after;
            is = write_outputs-rotating texts w ∙ ap rotated wrote.is;
            holds = wrote.written;
          })
    ]
