-- ===== src/Rotation/Examples.antt =====
-- The theorems on the output in chunks, at a rotation by two messages.
use tlscap.Prelude.{ℕ, refl, true, some, List, [], ◌∷◌}
use tlscap.Text.{codes}
use tlscap.Rotation.{count, FilePath, RotatingGzWriter, with_compression, Io}
use tlscap.Rotation.Chunks.{
  Works, Bounded, Wrote, write_messages, message_bytes, AllWork, write_messages-Wrote,
}

abbrev prefix : FilePath
prefix = record { parent = some (codes "/out"); file_name = some (codes "tls") }

abbrev fine : ℕ → Io
fine now = record {
  now = now;
  stamp = codes "20240101000000";
  creates = true;
  writes = true;
  finishes = true;
}

abbrev writer : RotatingGzWriter
writer = with_compression prefix (count 2)

abbrev three : List (Io × List ℕ)
three = (fine 1, codes "a") ∷ (fine 2, codes "b") ∷ (fine 3, codes "c") ∷ []

fine-Works : (now : ℕ) → Works (fine now)
fine-Works now = record { creates = refl; writes = refl; finishes = refl }

writer-Bounded : Bounded writer
unfolding Bounded with_compression
writer-Bounded = (tt, tt)

three-AllWork : AllWork three
unfolding AllWork
three-AllWork = (fine-Works 1, (fine-Works 2, (fine-Works 3, tt)))

write_messages-Wrote_example : Wrote writer (message_bytes three) (write_messages three writer)
write_messages-Wrote_example = write_messages-Wrote three writer three-AllWork writer-Bounded
