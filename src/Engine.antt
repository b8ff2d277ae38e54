-- ===== src/Engine.antt =====
-- `LuaEngine` of src/lua/mod.rs and the registry of src/lua/dissector_table.rs. The Lua interpreter is a
-- parameter: what a call of a registered dissector gives, with the state of the interpreter. A dissector
-- that registers another one while it is called is left out.
pub mod Consumed
use tlscap.Prelude.{
  ℕ, Bool, true, false, ◌||◌, Option, none, some, List, [], ◌∷◌, min, length, get, put, ◌==◌,
  if◌then◌else◌, bytes_eq,
}
use tlscap.Text.{codes}
use tlscap.Fields.{FrameFields}
use tlscap.Tvb.{ℤ, pos, negsuc}
use tlscap.Orchestrator.Records.{Dissected, fields, unregistered, error, panicked}

-- What a dissector returns: an integer, a float as its cast to `usize` unless it is negative or no
-- number, or another value.
pub data Returned : Type 0 where
  integer : ℤ → Returned
  float : Option ℕ → Returned
  other : Returned

-- `HashMap<u16, Table>`, with the tables of the protocols.
abbrev pub Registry : Type 0 → Type 0
Registry P = List (ℕ × P)

pub record LuaEngine (P M : Type 0) : Type 0 where
  pub tls_port_registry : Registry P
  pub lua : M

-- `DissectorTable.get`: whether the table is one that there is. Both names stand for the one registry.
pub is_table : List ℕ → Bool
is_table name = bytes_eq name (codes "tls.port") || bytes_eq name (codes "ssl.port")

-- `DissectorTable:add`
pub add_dissector : {P M : Type 0} → ℕ → P → LuaEngine P M → LuaEngine P M
add_dissector port proto engine = record engine {
  tls_port_registry = put (λ a b. a == b) port proto engine.tls_port_registry;
}

abbrev found : {P : Type 0} → Option P → Bool
found none = false
found (some proto) = true

pub has_dissector_for_port : {P M : Type 0} → LuaEngine P M → ℕ → Bool
has_dissector_for_port engine port = found (get (λ a b. a == b) port engine.tls_port_registry)

-- The bytes that were consumed: what the dissector says, but no more than there are, or all of them.
pub consumed : Returned → ℕ → ℕ
consumed (integer (pos n)) len = min n len
consumed (integer (negsuc n)) len = len
consumed (float (some n)) len = min n len
consumed (float none) len = len
consumed other len = len

-- What a call comes to: a value with the fields that were built, an error of Lua, or a panic of a function
-- of the program that the dissector called, which goes on through Lua.
pub data Called : Type 0 where
  returned : Returned → FrameFields → Called
  lua_error panic : Called

abbrev pub after_call : {M : Type 0} → ℕ → Called × M → Dissected FrameFields × M
after_call len (lua_error, m) = (error, m)
after_call len (panic, m) = (panicked, m)
after_call len (returned ret ff, m) = (fields ff (consumed ret len), m)

abbrev pub call_dissector :
    {P M : Type 0}
    → (P → List ℕ → M → Called × M)
    → Option P
    → List ℕ
    → M
    → Dissected FrameFields × M
call_dissector call none plaintext m = (unregistered, m)
call_dissector call (some proto) plaintext m =
    after_call (length plaintext) (call proto plaintext m)

-- `dissect`, in the shape that the orchestrator takes.
pub dissect :
    {P M : Type 0}
    → (P → List ℕ → M → Called × M)
    → ℕ
    → List ℕ
    → LuaEngine P M
    → Dissected FrameFields × LuaEngine P M
dissect call port plaintext engine =
    let (result, lua) =
      call_dissector call (get (λ a b. a == b) port engine.tls_port_registry) plaintext
        engine.lua in
    (result, record engine { lua = lua })
