-- ===== src/Orchestrator/Tails.antt =====
-- The capped tail of src/orchestrator.rs.
use tlscap.Prelude.{
  ℕ, ◌+◌, ◌-◌, ◌≤◌, ◌≡◌, refl, Bool, true, false, not, List, [], ◌++◌, ltb, length, take, drop,
  length-take, length-drop, take-append-drop, Bool-cases, inl, inr, arith,
}
use tlscap.Orchestrator.{Connection, tail, set_tail, Stats}
use tlscap.Orchestrator.Records.{set_tail_capped}

tail-set_tail :
    (is_c2s : Bool) (bytes : List ℕ) (conn : Connection)
    → (tail is_c2s (set_tail is_c2s bytes conn) ≡ bytes)
      × (tail (not is_c2s) (set_tail is_c2s bytes conn) ≡ tail (not is_c2s) conn)
tail-set_tail true bytes conn = (refl, refl)
tail-set_tail false bytes conn = (refl, refl)

-- The new tail is within the cap. It is what is left of the bytes after those that the counter of
-- discarded bytes counts, which are none if the bytes are within the cap. The tail of the other
-- direction stays.
pub set_tail_capped_keeps :
    (cap : ℕ) (is_c2s : Bool) (bytes : List ℕ) (conn : Connection) (stats : Stats)
    → (let (conn', stats') = set_tail_capped cap is_c2s bytes conn stats in
        (length (tail is_c2s conn') ≤ cap)
        × (tail (not is_c2s) conn' ≡ tail (not is_c2s) conn)
        × (discarded : List ℕ) × (discarded ++ tail is_c2s conn' ≡ bytes)
        × (stats'.tail_bytes_discarded ≡ stats.tail_bytes_discarded + length discarded)
        × (length bytes ≤ cap → discarded ≡ []))
unfolding set_tail_capped
set_tail_capped_keeps cap is_c2s bytes conn stats = elim (Bool-cases (ltb cap (length bytes))) [
  | inl long ↦
      let n = length bytes - cap in
      let (here, other) = tail-set_tail is_c2s (drop n bytes) conn in
      rw (long, here)
        (
          omega (arith, length-drop n bytes),
          other,
          take n bytes,
          take-append-drop n bytes,
          omega (arith, length-take n bytes),
          λ within. absurd (ground arith),
        )
  | inr short ↦
      let (here, other) = tail-set_tail is_c2s bytes conn in
      rw (short, here) (ground arith, other, [], refl, omega arith, λ within. refl)
]
