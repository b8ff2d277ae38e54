-- ===== src/Engine/Consumed.antt =====
-- What a dissection gives.
use tlscap.Prelude.{
  ◌≢◌, refl, ℕ, ◌≤◌, ◌≡◌, ap, subst, true, Option, none, some, List, length, get, get-put, ◌==◌,
  ==_iff, if◌then◌else◌, Bool-cases, inl, inr, arith,
}
use tlscap.Fields.{FrameFields}
use tlscap.Tvb.{pos, negsuc}
use tlscap.Orchestrator.Records.{Dissected, Calm, fields, unregistered, error, panicked}
use tlscap.Engine.{
  Returned, Called, returned, lua_error, panic, integer, float, other, LuaEngine, add_dissector,
  has_dissector_for_port, consumed, after_call, call_dissector, dissect, found,
}

consumed_le : (ret : Returned) (len : ℕ) → consumed ret len ≤ len
unfolding consumed
consumed_le (integer (pos n)) len = omega arith
consumed_le (integer (negsuc n)) len = omega arith
consumed_le (float (some n)) len = omega arith
consumed_le (float none) len = omega arith
consumed_le other len = omega arith

-- No more bytes are consumed than there are.
abbrev Bounded : ℕ → Dissected FrameFields → Type 0
Bounded len (fields ff n) = n ≤ len
Bounded len unregistered = Unit {0}
Bounded len error = Unit {0}
Bounded len panicked = Unit {0}

after_call-Bounded :
    {M : Type 0} (len : ℕ) (result : Called × M) → Bounded len (after_call len result).0
after_call-Bounded len (lua_error, m) = tt
after_call-Bounded len (panic, m) = tt
after_call-Bounded len (returned ret ff, m) = consumed_le ret len

call_dissector-Bounded :
    {P M : Type 0} (call : P → List ℕ → M → Called × M) (proto : Option P) (plaintext : List ℕ)
    (m : M)
    → Bounded (length plaintext) (call_dissector call proto plaintext m).0
call_dissector-Bounded call none plaintext m = tt
call_dissector-Bounded call (some proto) plaintext m =
    after_call-Bounded (length plaintext) (call proto plaintext m)

-- Whatever a dissector returns, the count of consumed bytes is at most that of the bytes it was given.
pub dissect-consumed :
    {P M : Type 0} (call : P → List ℕ → M → Called × M) (port : ℕ) (plaintext : List ℕ)
    (engine after : LuaEngine P M) (ff : FrameFields) (n : ℕ)
    → dissect call port plaintext engine ≡ (fields ff n, after)
    → n ≤ length plaintext
unfolding dissect
dissect-consumed call port plaintext engine after ff n e =
    subst (λ r. Bounded (length plaintext) r.0) e
      (call_dissector-Bounded call (get (λ a b. a == b) port engine.tls_port_registry) plaintext
        engine.lua)

-- A port has a dissector after `add` exactly if it is the port added or had one before.
pub has_dissector_for_port-add_dissector :
    {P M : Type 0} (port other_port : ℕ) (proto : P) (engine : LuaEngine P M)
    → has_dissector_for_port (add_dissector port proto engine) other_port
      ≡ (if port == other_port then true else has_dissector_for_port engine other_port)
unfolding has_dissector_for_port add_dissector
has_dissector_for_port-add_dissector port other_port proto engine =
    let there = get-put (λ a b. a == b) ==_iff other_port port proto engine.tls_port_registry in
    elim (Bool-cases (port == other_port)) [
      | inl e ↦ rw e (ap found (rw e at there))
      | inr e ↦ rw e (ap found (rw e at there))
    ]

after_call-Calm :
    {M : Type 0} (len : ℕ) (result : Called × M)
    → result.0 ≢ panic
    → (after_call len result).0 ≢ panicked
after_call-Calm len (returned ret ff, m) h e = absurd (cc)
after_call-Calm len (lua_error, m) h e = absurd (cc)
after_call-Calm len (panic, m) h e = h refl

call_dissector-Calm :
    {P M : Type 0} (call : P → List ℕ → M → Called × M) (proto : Option P) (plaintext : List ℕ)
    (m : M)
    → ((p : P) (bytes : List ℕ) (lua : M) → (call p bytes lua).0 ≢ panic)
    → (call_dissector call proto plaintext m).0 ≢ panicked
call_dissector-Calm call none plaintext m h e = absurd (cc)
call_dissector-Calm call (some proto) plaintext m h e =
    after_call-Calm (length plaintext) (call proto plaintext m) (h proto plaintext m) e

-- Where no registered dissector panics, whatever it is given, the engine does what the orchestrator's
-- theorems ask of it.
dissect-Calm :
    {P M : Type 0} (call : P → List ℕ → M → Called × M)
    → ((p : P) (bytes : List ℕ) (lua : M) → (call p bytes lua).0 ≢ panic)
    → Calm (dissect call)
unfolding dissect
dissect-Calm call h port plaintext engine =
    call_dissector-Calm call (get (λ a b. a == b) port engine.tls_port_registry) plaintext
      engine.lua h
