-- ===== src/Main/Arguments.antt =====
-- What the checks of the arguments ensure of what is chosen by them.
use tlscap.Prelude.{
  ℕ, ◌*◌, ◌≡◌, refl, Bool, true, false, ◌&&◌, not, Option, none, some, if◌then◌else◌, bytes_eq,
  Bool-cases, inl, inr,
}
use tlscap.Text.{codes, Plain}
use tlscap.EkOutput.Ndjson.{NdjsonWriter}
use tlscap.Rotation.{RotateBy, count, seconds, never}
use tlscap.Main.{
  Cli, Refusal, two_rotations, unknown_format, packet_log_format, given, is_ndjson, validate,
  rotation, MessageWriter, ek, ndjson, choose_writer,
}

-- A writer of lines: the prefix of the index has no control character.
abbrev pub WritesLines : MessageWriter → Type 0
WritesLines (ek w) = Plain w.index_prefix
WritesLines (ndjson w) = Unit {0}

-- Events are only written by the writer that can.
abbrev pub can_log : Bool → MessageWriter → Bool
can_log true (ek w) = false
can_log true (ndjson w) = true
can_log false writer = true

ndjson_can_log :
    (has_packet_log : Bool) (w : NdjsonWriter) → can_log has_packet_log (ndjson w) ≡ true
ndjson_can_log true w = refl
ndjson_can_log false w = refl

-- A test that the checks of the arguments pass.
passed :
    (b : Bool) (r : Refusal) (o : Option Refusal) → (if b then some r else o) ≡ none → b ≡ false
passed true r o h = absurd (cc)
passed false r o h = refl

third_passed :
    (a b c : Bool) (q r s : Refusal) (o : Option Refusal)
    → (if a then some q else if b then some r else if c then some s else o) ≡ none
    → c ≡ false
third_passed true b c q r s o h = absurd (cc)
third_passed false true c q r s o h = absurd (cc)
third_passed false false c q r s o h = passed c s o h

pub choose_writer-can_log :
    (cli : Cli) → validate cli ≡ none → can_log (given cli.packet_log) (choose_writer cli) ≡ true
unfolding validate choose_writer
choose_writer-can_log cli h =
    let log : given cli.packet_log && not (is_ndjson cli) ≡ false =
      third_passed (given cli.rotate_count && given cli.rotate_seconds)
        (not (bytes_eq cli.format (codes "ek")) && not (is_ndjson cli))
        (given cli.packet_log && not (is_ndjson cli)) two_rotations unknown_format packet_log_format
        _ h in
    elim (Bool-cases (is_ndjson cli)) [
      | inl e ↦ rw e (ndjson_can_log (given cli.packet_log) _)
      | inr e ↦ elim (Bool-cases (given cli.packet_log)) [ inl g ↦ absurd (cc) | inr g ↦ rw (e, g) ]
    ]

pub choose_writer-WritesLines :
    (cli : Cli) → Plain cli.ek_index_prefix → WritesLines (choose_writer cli)
unfolding choose_writer
choose_writer-WritesLines cli p = elim (Bool-cases (is_ndjson cli)) [
  | inl e ↦ rw e tt
  | inr e ↦ rw e p
]

-- Arguments that pass the checks choose exactly one way to rotate: the arm of `run` for both is not
-- reached.
pub rotation-validated :
    (cli : Cli)
    → validate cli ≡ none
    → (r : RotateBy) × (rotation cli.rotate_count cli.rotate_seconds ≡ some r)
unfolding validate
rotation-validated cli h = one_of cli.rotate_count cli.rotate_seconds (passed _ _ _ h)
  where
    one_of :
        (n s : Option ℕ) → given n && given s ≡ false → (r : RotateBy) × (rotation n s ≡ some r)
    one_of none none g = (never, refl)
    one_of (some n) none g = (count n, refl)
    one_of none (some s) g = (seconds (s * 1_000_000_000), refl)
    one_of (some n) (some s) g = absurd (cc)
