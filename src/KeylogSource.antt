-- ===== src/KeylogSource.antt =====
-- src/keylog_source.rs: the polled keylog. What the file system and the clock answer comes in as
-- arguments: the outcome of a read, the file's signature and the time, in
-- nanoseconds, of which one reading stands for those of a call.
pub mod Freshness
mod Examples
use tlscap.Prelude.{
  ℕ, ◌-◌, Bool, true, false, ◌||◌, not, Option, none, some, List, [], leb, ◌==◌, if◌then◌else◌,
}
use tlscap.Keylog.{Keylog, parse}

-- `fs::read_to_string`: the text, `NotFound` or another error.
pub data ReadResult : Type 0 where
  ok : List ℕ → ReadResult
  not_found read_error : ReadResult

-- `mtime` and `len`, as `stat_signature` gives them.
pub record Signature : Type 0 where
  pub mtime : Option ℕ
  pub len : Option ℕ

-- `fs::metadata`: nothing, or a time that the file system may not have and a length.
pub stat_signature : Option (Option ℕ × ℕ) → Signature
stat_signature none = record { mtime = none; len = none }
stat_signature (some (modified, len)) = record { mtime = modified; len = some len }

pub record KeylogSource : Type 0 where
  pub path : Option (List ℕ)
  pub reload_interval : ℕ
  pub last_reload_attempt : ℕ
  pub last_seen : Signature
  pub current : Keylog

abbrev option_eq : Option ℕ → Option ℕ → Bool
option_eq none none = true
option_eq none (some b) = false
option_eq (some a) none = false
option_eq (some a) (some b) = a == b

-- `mtime != self.last_seen_mtime || len != self.last_seen_len`
abbrev pub differs : Signature → Signature → Bool
differs a b = not (option_eq a.mtime b.mtime) || not (option_eq a.len b.len)

abbrev pub is_backed : Option (List ℕ) → Bool
is_backed none = false
is_backed (some path) = true

-- `Duration::MAX`
abbrev duration_max : ℕ
duration_max = 18_446_744_073_709_551_615_999_999_999

-- `hex::decode` of the hex crate is a parameter.
module _ (decode : List ℕ → Option (List ℕ)) where
  -- `open`. An error other than `NotFound` is the caller's.
  pub open_file : List ℕ → ℕ → ℕ → ReadResult → Option (Option ℕ × ℕ) → Option KeylogSource
  open_file path reload_interval now (ok text) meta = some (record {
    path = some path;
    reload_interval = reload_interval;
    last_reload_attempt = now;
    last_seen = stat_signature meta;
    current = parse decode text;
  })
  open_file path reload_interval now not_found meta = some (record {
    path = some path;
    reload_interval = reload_interval;
    last_reload_attempt = now;
    last_seen = stat_signature none;
    current = parse decode [];
  })
  open_file path reload_interval now read_error meta = none

  -- The state after the read of a reload.
  abbrev reloaded : ReadResult → Option (Option ℕ × ℕ) → KeylogSource → KeylogSource
  reloaded (ok text) meta source = record source {
    last_seen = stat_signature meta;
    current = parse decode text;
  }
  reloaded not_found meta source = source
  reloaded read_error meta source = source

  unfoldable pub reload_if_changed :
      ℕ → ReadResult → Option (Option ℕ × ℕ) → KeylogSource → KeylogSource
  reload_if_changed now read meta source =
      if is_backed source.path
      then reloaded read meta (record source { last_reload_attempt = now })
      else source

  unfoldable pub poll : ℕ → ReadResult → Option (Option ℕ × ℕ) → KeylogSource → KeylogSource
  poll now read meta source =
      let fresh = reload_if_changed now read meta source in
      if is_backed source.path
      then (if leb source.reload_interval (now - source.last_reload_attempt) then fresh else source)
      else source

  -- `seen` is what the file system answers before the reload, `meta` behind its read.
  unfoldable pub poll_after_miss :
      Option (Option ℕ × ℕ) → ℕ → ReadResult → Option (Option ℕ × ℕ) → KeylogSource → KeylogSource
  poll_after_miss seen now read meta source =
      let fresh = reload_if_changed now read meta source in
      if is_backed source.path
      then (if differs (stat_signature seen) source.last_seen then fresh else source)
      else source

-- A keylog without a file.
pub from_parsed : ℕ → Keylog → KeylogSource
from_parsed now keylog = record {
  path = none;
  reload_interval = duration_max;
  last_reload_attempt = now;
  last_seen = stat_signature none;
  current = keylog;
}
