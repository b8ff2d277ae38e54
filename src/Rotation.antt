-- ===== src/Rotation.antt =====
-- src/rotation.rs: the output in chunks. What a write goes through comes in as arguments: the clock, the
-- stamp of the local time and the outcomes of the calls that do input and output. A chunk holds the bytes
-- that its encoder compresses.
pub mod Chunks
pub mod Names
mod Examples
use tlscap.Prelude.{
  ℕ, suc, ◌+◌, ◌-◌, Bool, true, false, Option, none, some, List, [], ◌∷◌, ◌++◌, leb, if◌then◌else◌,
}
use tlscap.Text.{codes}
use tlscap.Text.Decimal.{padded}

pub data RotateBy : Type 0 where
  count seconds : ℕ → RotateBy
  never : RotateBy

-- A path: its directory, if it has one that is not empty, and its last component, if it has one.
pub record FilePath : Type 0 where
  pub parent : Option (List ℕ)
  pub file_name : Option (List ℕ)

pub record CurrentChunk : Type 0 where
  pub path : FilePath
  pub contents : List ℕ
  pub messages_written : ℕ
  pub opened_at : ℕ

-- `files` are the chunks that were finished.
pub record RotatingGzWriter : Type 0 where
  pub prefix : FilePath
  pub rotate_by : RotateBy
  pub current : Option CurrentChunk
  pub chunk_counter : ℕ
  pub files : List CurrentChunk

-- `with_compression`
unfoldable pub with_compression : FilePath → RotateBy → RotatingGzWriter
with_compression prefix rotate_by = record {
  prefix = prefix;
  rotate_by = rotate_by;
  current = none;
  chunk_counter = 0;
  files = [];
}

-- The time, the stamp, and whether a file is created, an encoder takes the bytes and an encoder is
-- finished.
pub record Io : Type 0 where
  pub now : ℕ
  pub stamp : List ℕ
  pub creates : Bool
  pub writes : Bool
  pub finishes : Bool

-- `Ok`, the error of input or output, or a panic.
pub data Outcome : Type 0 where
  ok io_error panic : Outcome

abbrev pub or_empty : Option (List ℕ) → List ℕ
or_empty none = []
or_empty (some s) = s

abbrev pub chunk_suffix : ℕ → List ℕ → List ℕ
chunk_suffix counter stamp = b'_' ∷ (padded 6 counter ++ (b'_' ∷ (stamp ++ codes ".gz")))

-- `chunk_path`
pub chunk_path : FilePath → ℕ → List ℕ → FilePath
chunk_path prefix counter stamp = record {
  parent = prefix.parent;
  file_name = some (or_empty prefix.file_name ++ chunk_suffix counter stamp);
}

abbrev finish_chunk : Option CurrentChunk → Bool → RotatingGzWriter → Outcome × RotatingGzWriter
finish_chunk none finishes w = (ok, w)
finish_chunk (some c) true w = (ok, record w { current = none; files = w.files ++ c ∷ [] })
finish_chunk (some c) false w = (io_error, record w { current = none })

pub finish_current : Io → RotatingGzWriter → Outcome × RotatingGzWriter
finish_current io w = finish_chunk w.current io.finishes w

pub open_new : Io → RotatingGzWriter → Outcome × RotatingGzWriter
open_new io w =
    let counter = w.chunk_counter + 1 in
    let chunk : CurrentChunk = record {
      path = chunk_path w.prefix counter io.stamp;
      contents = [];
      messages_written = 0;
      opened_at = io.now;
    } in
    if io.creates
    then (ok, record w { current = some chunk; chunk_counter = counter })
    else (io_error, record w { chunk_counter = counter })

-- `should_rotate`
abbrev pub should_rotate : Option CurrentChunk → RotateBy → ℕ → Bool
should_rotate none rotate_by now = true
should_rotate (some c) never now = false
should_rotate (some c) (count n) now = leb n c.messages_written
should_rotate (some c) (seconds d) now = leb d (now - c.opened_at)

-- `?`
abbrev pub and_then :
    Outcome × RotatingGzWriter
    → (RotatingGzWriter → Outcome × RotatingGzWriter)
    → Outcome × RotatingGzWriter
and_then (ok, w) f = f w
and_then (io_error, w) f = (io_error, w)
and_then (panic, w) f = (panic, w)

pub rotate_if_needed : Io → RotatingGzWriter → Outcome × RotatingGzWriter
rotate_if_needed io w =
    let rotated = and_then (finish_current io w) (open_new io) in
    if should_rotate w.current w.rotate_by io.now then rotated else (ok, w)

-- The end of `write_message`, at the chunk that `rotate_if_needed` leaves open.
abbrev pub write_chunk :
    List ℕ → Bool → Option CurrentChunk → RotatingGzWriter → Outcome × RotatingGzWriter
write_chunk bytes writes none w = (panic, w)
write_chunk bytes false (some c) w = (io_error, w)
write_chunk bytes true (some c) w = (
  ok,
  record w {
    current =
        some
          (record c { contents = c.contents ++ bytes; messages_written = c.messages_written + 1 });
  },
)

pub write_message : Io → List ℕ → RotatingGzWriter → Outcome × RotatingGzWriter
write_message io bytes w =
    and_then (rotate_if_needed io w)
      (λ rotated. write_chunk bytes io.writes rotated.current rotated)
