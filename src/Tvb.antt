-- ===== src/Tvb.antt =====
-- src/lua/tvb.rs: the views that a Lua dissector has of the bytes, in a build without overflow checks
-- (the release profile of Cargo.toml leaves them off), so that additions of `usize` wrap.
pub mod Windows
mod Examples
use tlscap.Prelude.{
  ℕ, ◌+◌, ◌-◌, ◌%◌, ◌^◌, Bool, true, false, ◌&&◌, ◌||◌, Option, none, some, List, [], ◌∷◌, ◌++◌,
  leb, ltb, ◌==◌, if◌then◌else◌, length, replicate,
}
use tlscap.Prelude.Words.{from_be, from_le}
use tlscap.Prelude
use tlscap.Reassembly.{Range}

-- An `i64` that Lua gives: `negsuc n` is `-(n + 1)`.
pub data ℤ : Type 0 where
  pos negsuc : ℕ → ℤ

-- `as usize`
abbrev pub as_usize : ℤ → ℕ
as_usize (pos n) = n % 2 ^ 64
as_usize (negsuc n) = 2 ^ 64 - (n + 1)

-- `length.map(…).unwrap_or(avail)`
abbrev pub length_or : Option ℤ → ℕ → ℕ
length_or none avail = avail
length_or (some l) avail = as_usize l

abbrev pub add_usize : ℕ → ℕ → ℕ
add_usize a b = (a + b) % 2 ^ 64

pub record TvbRange : Type 0 where
  pub data' : List ℕ
  pub range : Range

-- `none` is the error of a range that is out of bounds.
unfoldable pub slice : List ℕ → ℕ → ℕ → ℤ → Option ℤ → Option TvbRange
slice data' base_start base_len offset length' =
    let o = as_usize offset in
    let avail = base_len - o in
    let len = length_or length' avail in
    let start = add_usize base_start o in
    if ltb base_len (add_usize o len)
    then none
    else some
        (record { data' = data'; range = record { start = start; end = add_usize start len } })

-- `tvb(offset, length)` of a `Tvb` and of a `TvbRange`.
unfoldable pub call_tvb : List ℕ → ℤ → Option ℤ → Option TvbRange
call_tvb data' offset length' = slice data' 0 (length data') offset length'

unfoldable pub call_range : TvbRange → ℤ → Option ℤ → Option TvbRange
call_range this offset length' =
    slice this.data' this.range.start (this.range.end - this.range.start) offset length'

-- `bytes`: `none` is the panic of an index out of range.
unfoldable pub range_bytes : TvbRange → Option (List ℕ)
range_bytes this =
    if leb this.range.start this.range.end && leb this.range.end (length this.data')
    then some (Prelude.slice this.data' this.range.start this.range.end)
    else none

-- `parse_uint`: the buffer of eight bytes with the range at one of its ends.
pub parse_uint : List ℕ → Bool → Option ℕ
parse_uint bytes little_endian =
    if (length bytes == 0) || ltb 8 (length bytes)
    then none
    else if little_endian
    then some (from_le (bytes ++ replicate (8 - length bytes) 0))
    else some (from_be 0 (replicate (8 - length bytes) 0 ++ bytes))
