-- ===== src/KeylogSource/Freshness.antt =====
-- How fresh the polled keylog is, over any sequence of calls.
use tlscap.Prelude.{
  ℕ, ◌+◌, ◌-◌, ◌≤◌, ◌≡◌, refl, ap, ◌∙◌, Bool, true, false, Option, some, List, [], ◌∷◌, leb,
  if◌then◌else◌, Bool-cases, inl, inr, le→leb, arith,
}
use tlscap.Keylog.{Keylog, parse}
use tlscap.KeylogSource.{
  ReadResult, ok, not_found, read_error, stat_signature, KeylogSource, differs, is_backed,
  reload_if_changed, poll, poll_after_miss, reloaded,
}

-- A call, with what the file system and the clock answer it.
pub data Call : Type 0 where
  polled : ℕ → ReadResult → Option (Option ℕ × ℕ) → Call
  missed : Option (Option ℕ × ℕ) → ℕ → ReadResult → Option (Option ℕ × ℕ) → Call

abbrev pub time : Call → ℕ
time (polled now read meta) = now
time (missed seen now read meta) = now

abbrev pub read_of : Call → ReadResult
read_of (polled now read meta) = read
read_of (missed seen now read meta) = read

-- No call is after `t`.
unfoldable pub Until : ℕ → List Call → Type 0
Until t [] = Unit {0}
Until t (c ∷ calls) = (time c ≤ t) × Until t calls

-- The text is what one of the calls could read.
pub data CouldRead (text : List ℕ) : List Call → Type 0 where
  here : (c : Call) (calls : List Call) → read_of c ≡ ok text → CouldRead text (c ∷ calls)
  there : (c : Call) (calls : List Call) → CouldRead text calls → CouldRead text (c ∷ calls)

module _ (decode : List ℕ → Option (List ℕ)) where
  pub call : Call → KeylogSource → KeylogSource
  call (polled now read meta) source = poll decode now read meta source
  call (missed seen now read meta) source = poll_after_miss decode seen now read meta source

  unfoldable pub run : List Call → KeylogSource → KeylogSource
  run [] source = source
  run (c ∷ calls) source = run calls (call c source)

  -- The keylog that was there, or the parse of a text that was read.
  pub data FromReads (old : Keylog) (calls : List Call) (new : Keylog) : Type 0 where
    kept : new ≡ old → FromReads old calls new
    parsed :
        (text : List ℕ) → CouldRead text calls → new ≡ parse decode text → FromReads old calls new

  -- The file and the interval stay, and no attempt is later than the latest call.
  record Timed (t : ℕ) (old new : KeylogSource) : Type 0 where
    path_kept : new.path ≡ old.path
    interval_kept : new.reload_interval ≡ old.reload_interval
    in_time : new.last_reload_attempt ≤ t

  reloaded-Timed :
      (t now : ℕ) (read : ReadResult) (meta : Option (Option ℕ × ℕ)) (source : KeylogSource)
      → now ≤ t
      → Timed t source (reloaded decode read meta (record source { last_reload_attempt = now }))
  reloaded-Timed t now (ok text) meta source h = record {
    path_kept = refl;
    interval_kept = refl;
    in_time = h;
  }
  reloaded-Timed t now not_found meta source h = record {
    path_kept = refl;
    interval_kept = refl;
    in_time = h;
  }
  reloaded-Timed t now read_error meta source h = record {
    path_kept = refl;
    interval_kept = refl;
    in_time = h;
  }

  same-Timed :
      (t : ℕ) (source : KeylogSource) → source.last_reload_attempt ≤ t → Timed t source source
  same-Timed t source h = record { path_kept = refl; interval_kept = refl; in_time = h }

  reload_if_changed-Timed :
      (t now : ℕ) (read : ReadResult) (meta : Option (Option ℕ × ℕ)) (source : KeylogSource)
      → now ≤ t
      → source.last_reload_attempt ≤ t
      → Timed t source (reload_if_changed decode now read meta source)
  unfolding reload_if_changed
  reload_if_changed-Timed t now read meta source h k = elim (Bool-cases (is_backed source.path)) [
    | inl e ↦ rw e (reloaded-Timed t now read meta source h)
    | inr e ↦ rw e (same-Timed t source k)
  ]

  guarded-Timed :
      (b : Bool) (t : ℕ) (old new : KeylogSource)
      → Timed t old new
      → old.last_reload_attempt ≤ t
      → Timed t old (if b then new else old)
  guarded-Timed true t old new w h = w
  guarded-Timed false t old new w h = same-Timed t old h

  call-Timed :
      (t : ℕ) (c : Call) (source : KeylogSource)
      → time c ≤ t
      → source.last_reload_attempt ≤ t
      → Timed t source (call c source)
  unfolding call poll poll_after_miss
  call-Timed t (polled now read meta) source h k =
      let fresh = reload_if_changed-Timed t now read meta source h k in
      guarded-Timed (is_backed source.path) t source _
        (guarded-Timed (leb source.reload_interval (now - source.last_reload_attempt)) t source _
          fresh k)
        k
  call-Timed t (missed seen now read meta) source h k =
      let fresh = reload_if_changed-Timed t now read meta source h k in
      guarded-Timed (is_backed source.path) t source _
        (guarded-Timed (differs (stat_signature seen) source.last_seen) t source _ fresh k) k

  run-Timed :
      (t : ℕ) (calls : List Call) (source : KeylogSource)
      → Until t calls
      → source.last_reload_attempt ≤ t
      → Timed t source (run calls source)
  unfolding run Until
  run-Timed t [] source h k = same-Timed t source k
  run-Timed t (c ∷ calls) source h k =
      let first = call-Timed t c source h.0 k in
      let rest = run-Timed t calls (call c source) h.1 first.in_time in
      record {
        path_kept = rest.path_kept ∙ first.path_kept;
        interval_kept = rest.interval_kept ∙ first.interval_kept;
        in_time = rest.in_time;
      }

  reloaded-FromReads :
      (c : Call) (read : ReadResult) (meta : Option (Option ℕ × ℕ)) (old : Keylog)
      (source : KeylogSource)
      → read_of c ≡ read
      → source.current ≡ old
      → FromReads old (c ∷ []) (reloaded decode read meta source).current
  reloaded-FromReads c (ok text) meta old source h k = parsed text (here c [] h) refl
  reloaded-FromReads c not_found meta old source h k = kept k
  reloaded-FromReads c read_error meta old source h k = kept k

  reload_if_changed-FromReads :
      (c : Call) (now : ℕ) (read : ReadResult) (meta : Option (Option ℕ × ℕ))
      (source : KeylogSource)
      → read_of c ≡ read
      → FromReads source.current (c ∷ []) (reload_if_changed decode now read meta source).current
  unfolding reload_if_changed
  reload_if_changed-FromReads c now read meta source h = elim (Bool-cases (is_backed source.path)) [
    | inl e ↦ rw e (
        reloaded-FromReads c read meta source.current (record source { last_reload_attempt = now })
          h refl)
    | inr e ↦ rw e (kept refl)
  ]

  guarded-FromReads :
      (b : Bool) (calls : List Call) (old new : KeylogSource)
      → FromReads old.current calls new.current
      → FromReads old.current calls (if b then new else old).current
  guarded-FromReads true calls old new w = w
  guarded-FromReads false calls old new w = kept refl

  call-FromReads :
      (c : Call) (source : KeylogSource) → FromReads source.current (c ∷ []) (call c source).current
  unfolding call poll poll_after_miss
  call-FromReads (polled now read meta) source =
      let fresh = reload_if_changed-FromReads (polled now read meta) now read meta source refl in
      guarded-FromReads (is_backed source.path) _ source _ (
        guarded-FromReads (leb source.reload_interval (now - source.last_reload_attempt)) _ source _
          fresh)
  call-FromReads (missed seen now read meta) source =
      let fresh =
        reload_if_changed-FromReads (missed seen now read meta) now read meta source refl in
      guarded-FromReads (is_backed source.path) _ source _
        (guarded-FromReads (differs (stat_signature seen) source.last_seen) _ source _ fresh)

  cons-FromReads :
      (c : Call) (calls : List Call) (old middle new : Keylog)
      → FromReads old (c ∷ []) middle
      → FromReads middle calls new
      → FromReads old (c ∷ calls) new
  cons-FromReads c calls old middle new first (parsed text r e) = parsed text (there c calls r) e
  cons-FromReads c calls old middle new (kept e) (kept e') = kept (e' ∙ e)
  cons-FromReads c calls old middle new (parsed text (here _ _ r) e) (kept e') =
      parsed text (here c calls r) (e' ∙ e)
  cons-FromReads c calls old middle new (parsed text (there _ _ r) e) (kept e') = elim r [ ]

  -- Over any sequence of polls, the keylog stays the one that was there or is the parse of a text that
  -- a read gave: a read that fails never loses what was parsed last.
  pub run-FromReads :
      (calls : List Call) (source : KeylogSource)
      → FromReads source.current calls (run calls source).current
  unfolding run
  run-FromReads [] source = kept refl
  run-FromReads (c ∷ calls) source =
      cons-FromReads c calls source.current _ _ (call-FromReads c source)
        (run-FromReads calls (call c source))

  -- Once the interval is over since the latest of any sequence of calls, the next poll that can read the
  -- file holds the parse of its text and its signature, whatever the calls before read or missed.
  pub poll-fresh :
      (path : List ℕ) (calls : List Call) (t now : ℕ) (text : List ℕ) (meta : Option (Option ℕ × ℕ))
      (source : KeylogSource)
      → source.path ≡ some path
      → source.last_reload_attempt ≤ t
      → Until t calls
      → t + source.reload_interval ≤ now
      → ((poll decode now (ok text) meta (run calls source)).current ≡ parse decode text)
        × ((poll decode now (ok text) meta (run calls source)).last_seen ≡ stat_signature meta)
  unfolding poll reload_if_changed
  poll-fresh path calls t now text meta source h k u due =
      let after = run-Timed t calls source u k in
      let backed : is_backed (run calls source).path ≡ true = ap is_backed (after.path_kept ∙ h) in
      let interval : (run calls source).reload_interval ≡ source.reload_interval =
        after.interval_kept in
      let last : (run calls source).last_reload_attempt ≤ t = after.in_time in
      let over : leb (run calls source).reload_interval
            (now - (run calls source).last_reload_attempt)
          ≡ true =
        le→leb _ _ (omega arith) in
      rw (backed, over) (refl, refl)

  -- After a miss, a file whose signature differs from the one recorded is read at once and its text is
  -- parsed; with the recorded signature the keylog stays. A read that fails keeps the keylog too.
  pub poll_after_miss-fresh :
      (path : List ℕ) (seen : Option (Option ℕ × ℕ)) (now : ℕ) (text : List ℕ)
      (meta : Option (Option ℕ × ℕ)) (source : KeylogSource)
      → source.path ≡ some path
      → ((poll_after_miss decode seen now (ok text) meta source).current ≡ (
          if differs (stat_signature seen) source.last_seen
          then parse decode text
          else source.current))
        × ((poll_after_miss decode seen now not_found meta source).current ≡ source.current)
        × ((poll_after_miss decode seen now read_error meta source).current ≡ source.current)
  unfolding poll_after_miss reload_if_changed
  poll_after_miss-fresh path seen now text meta source h =
      let backed : is_backed source.path ≡ true = ap is_backed h in
      elim (Bool-cases (differs (stat_signature seen) source.last_seen)) [
        | inl e ↦ rw (backed, e) (refl, refl, refl)
        | inr e ↦ rw (backed, e) (refl, refl, refl)
      ]
