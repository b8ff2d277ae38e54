-- ===== src/Fields/Building/Store.antt =====
-- The store stays without cycles, so the fields of every handle can be read.
use tlscap.Prelude.{
  ℕ, zero, suc, ◌+◌, ◌≤◌, ◌<◌, ◌≡◌, refl, sym, ap, ap₂, ◌∙◌, subst, Bool, Option, none, some, List,
  [], ◌∷◌, ◌++◌, length, length-append, get_elem?, arith,
}
use tlscap.Fields.{FieldValue, tree, frame_fields, Entries, end, entry}
use tlscap.Fields.Building.{
  LuaValue, integer, number, string, uint64, tvb_range, field_def, table, user_data, other, Cell,
  leaf, child, Accumulator, Store, record_at, Added, added, lua_error, panicked, recorded,
  field_value, dispatch_add, push_entry, tree_of, entries_with, read_cells, entries_of,
}

-- A child stands behind its parent in the store.
abbrev CellOk : ℕ → ℕ → Cell → Type 0
CellOk i n (leaf v) = Unit {0}
CellOk i n (child j) = (i < j) × (j < n)

abbrev CellsOk : ℕ → ℕ → Accumulator → Type 0
CellsOk i n [] = Unit {0}
CellsOk i n ((name, c) ∷ cells) = CellOk i n c × CellsOk i n cells

abbrev StoreOk : ℕ → ℕ → Store → Type 0
StoreOk i n [] = Unit {0}
StoreOk i n (a ∷ store) = CellsOk i n a × StoreOk (suc i) n store

unfoldable Ok : Store → Type 0
Ok store = StoreOk 0 (length store) store

CellsOk-mono : (i n m : ℕ) (cells : Accumulator) → n ≤ m → CellsOk i n cells → CellsOk i m cells
CellsOk-mono i n m [] h k = tt
CellsOk-mono i n m ((name, leaf v) ∷ cells) h k = (tt, CellsOk-mono i n m cells h k.1)
CellsOk-mono i n m ((name, child j) ∷ cells) h k =
    let below = k.0.1 in ((k.0.0, omega arith), CellsOk-mono i n m cells h k.1)

StoreOk-mono : (i n m : ℕ) (store : Store) → n ≤ m → StoreOk i n store → StoreOk i m store
StoreOk-mono i n m [] h k = tt
StoreOk-mono i n m (a ∷ store) h k =
    (CellsOk-mono i n m a h k.0, StoreOk-mono (suc i) n m store h k.1)

CellsOk-push :
    (i n : ℕ) (name : List ℕ) (c : Cell) (cells : Accumulator)
    → CellsOk i n cells
    → CellOk i n c
    → CellsOk i n (cells ++ (name, c) ∷ [])
CellsOk-push i n name c [] k h = (h, tt)
CellsOk-push i n name c (d ∷ cells) k h = (k.0, CellsOk-push i n name c cells k.1 h)

record_at-StoreOk :
    (i n k : ℕ) (name : List ℕ) (c : Cell) (store : Store)
    → StoreOk i n store
    → CellOk (i + k) n c
    → StoreOk i n (record_at k name c store)
unfolding record_at
record_at-StoreOk i n k name c [] s h = tt
record_at-StoreOk i n zero name c (a ∷ store) s h =
    let here : i + zero ≡ i = omega arith in
    (CellsOk-push i n name c a s.0 (subst (λ x. CellOk x n c) here h), s.1)
record_at-StoreOk i n (suc k) name c (a ∷ store) s h =
    let there : i + suc k ≡ suc i + k = omega arith in
    (s.0, record_at-StoreOk (suc i) n k name c store s.1 (subst (λ x. CellOk x n c) there h))

length-record_at :
    (k : ℕ) (name : List ℕ) (c : Cell) (store : Store)
    → length (record_at k name c store) ≡ length store
unfolding record_at
length-record_at k name c [] = refl
length-record_at zero name c (a ∷ store) = omega arith
length-record_at (suc k) name c (a ∷ store) = omega (arith, length-record_at k name c store)

StoreOk-new : (i n : ℕ) (store : Store) → StoreOk i n store → StoreOk i n (store ++ [] ∷ [])
StoreOk-new i n [] s = (tt, tt)
StoreOk-new i n (a ∷ store) s = (s.0, StoreOk-new (suc i) n store s.1)

-- A store without cycles and a handle in it.
record Handle (store : Store) (this : ℕ) : Type 0 where
  acyclic : Ok store
  inside : this < length store

-- What is to be shown of an outcome.
abbrev Built : Added → Type 0
Built (added store this) = Handle store this
Built lua_error = Unit {0}
Built panicked = Unit {0}

recorded-Built :
    (store : Store) (this : ℕ) (name : List ℕ) (v : Option FieldValue)
    → Handle store this
    → Built (recorded store this name v)
unfolding Ok
recorded-Built store this name none h = tt
recorded-Built store this name (some v) h =
    let size = length-record_at this name (leaf v) store in
    let inside = h.inside in
    record {
      acyclic =
          subst (λ n. StoreOk 0 n (record_at this name (leaf v) store)) (sym size)
            (record_at-StoreOk 0 (length store) this name (leaf v) store h.acyclic tt);
      inside = omega (arith, size);
    }

subtree-Built :
    (store : Store) (this : ℕ) (name : List ℕ)
    → Handle store this
    → Handle (record_at this name (child (length store)) store ++ [] ∷ []) (length store)
unfolding Ok
subtree-Built store this name h =
    let c = child (length store) in
    let inside = h.inside in
    let size = length-record_at this name c store in
    let grown : length (record_at this name c store ++ [] ∷ []) ≡ length store + 1 =
      omega (arith, size, length-append (record_at this name c store) ([] ∷ [])) in
    let wide = StoreOk-mono 0 (length store) (length store + 1) store (omega arith) h.acyclic in
    record {
      acyclic =
          subst (λ n. StoreOk 0 n (record_at this name c store ++ [] ∷ [])) (sym grown)
            (StoreOk-new 0 (length store + 1) (record_at this name c store) (
              record_at-StoreOk 0 (length store + 1) this name c store wide
                (omega arith, omega arith)));
      inside = omega (arith, grown);
    }

dispatch_add-Built :
    (lossy : List ℕ → List ℕ) (store : Store) (this : ℕ) (args : List LuaValue)
    (little_endian : Bool)
    → Handle store this
    → Built (dispatch_add lossy store this args little_endian)
unfolding dispatch_add
dispatch_add-Built lossy store this [] little_endian h = tt
dispatch_add-Built lossy store this (field_def f ∷ rest) little_endian h =
    recorded-Built store this f.name (field_value lossy f.kind little_endian rest) h
dispatch_add-Built lossy store this (table (some name) ∷ rest) little_endian h =
    subtree-Built store this name h
dispatch_add-Built lossy store this (table none ∷ rest) little_endian h = h
dispatch_add-Built lossy store this (integer i ∷ rest) little_endian h = h
dispatch_add-Built lossy store this (number n ∷ rest) little_endian h = h
dispatch_add-Built lossy store this (string s ∷ rest) little_endian h = h
dispatch_add-Built lossy store this (uint64 n ∷ rest) little_endian h = h
dispatch_add-Built lossy store this (tvb_range r ∷ rest) little_endian h = h
dispatch_add-Built lossy store this (user_data ∷ rest) little_endian h = h
dispatch_add-Built lossy store this (other ∷ rest) little_endian h = h

-- Entries come.
record Reads (o : Option Entries) : Type 0 where
  found : Entries
  is : o ≡ some found

entries_with-Reads :
    (go : ℕ → Option Entries) (i n : ℕ) (cells : Accumulator)
    → CellsOk i n cells
    → ((j : ℕ) → i < j → j < n → Reads (go j))
    → Reads (entries_with go cells)
unfolding entries_with
entries_with-Reads go i n [] k h = record { found = end; is = refl }
entries_with-Reads go i n ((name, leaf v) ∷ cells) k h =
    let rest = entries_with-Reads go i n cells k.1 h in
    record { found = entry name v rest.found; is = ap (push_entry name (some v)) rest.is }
entries_with-Reads go i n ((name, child j) ∷ cells) k h =
    let rest = entries_with-Reads go i n cells k.1 h in
    let below = h j k.0.0 k.0.1 in
    record {
      found = entry name (tree (frame_fields below.found none none [])) rest.found;
      is = ap₂ (λ o r. push_entry name (tree_of o) r) below.is rest.is;
    }

-- The cells at a place of the store.
record Found (i n k : ℕ) (o : Option Accumulator) : Type 0 where
  cells : Accumulator
  is : o ≡ some cells
  cells_ok : CellsOk (i + k) n cells

get_elem?-Found :
    (i n k : ℕ) (store : Store)
    → StoreOk i n store
    → k < length store
    → Found i n k (get_elem? store k)
get_elem?-Found i n k [] s h = absurd (omega arith)
get_elem?-Found i n zero (a ∷ store) s h =
    let here : i ≡ i + zero = omega arith in
    record { cells = a; is = refl; cells_ok = subst (λ x. CellsOk x n a) here s.0 }
get_elem?-Found i n (suc k) (a ∷ store) s h =
    let next = get_elem?-Found (suc i) n k store s.1 (omega arith) in
    let there : suc i + k ≡ i + suc k = omega arith in
    record {
      cells = next.cells;
      is = next.is;
      cells_ok = subst (λ x. CellsOk x n next.cells) there next.cells_ok;
    }

from_start : (n k : ℕ) (o : Option Accumulator) (f : Found 0 n k o) → CellsOk k n f.cells
from_start n k o f =
    let zero_add : 0 + k ≡ k = omega arith in subst (λ x. CellsOk x n f.cells) zero_add f.cells_ok

-- What lies behind a place in the store needs no more fuel than there are places behind it.
entries_of-Reads :
    (fuel i : ℕ) (store : Store) (cells : Accumulator)
    → StoreOk 0 (length store) store
    → CellsOk i (length store) cells
    → length store ≤ i + 1 + fuel
    → Reads (entries_of fuel store cells)
unfolding entries_of
entries_of-Reads zero i store cells s k h =
    entries_with-Reads (λ j. none) i (length store) cells k (λ j lower upper. absurd (omega arith))
entries_of-Reads (suc fuel) i store cells s k h =
    entries_with-Reads _ i (length store) cells k (λ j lower upper.
      let place = get_elem?-Found 0 (length store) j store s upper in
      let below =
        entries_of-Reads fuel j store place.cells s (from_start (length store) j _ place)
          (omega arith) in
      record {
        found = below.found;
        is = ap (read_cells (λ x. entries_of fuel store x)) place.is ∙ below.is;
      })

-- Every handle that a call of `add` or `add_le` gives, for any arguments that Lua may pass, is one of its
-- store, where each subtree stands behind the tree that holds it, so that there is no cycle; and what is
-- under the handle can be read as fields, in as many levels as there are accumulators at most.
dispatch_add-Handle :
    (lossy : List ℕ → List ℕ) (store : Store) (this : ℕ) (args : List LuaValue)
    (little_endian : Bool) (store' : Store) (next : ℕ)
    → Handle store this
    → dispatch_add lossy store this args little_endian ≡ added store' next
    → Handle store' next
      × Reads
          (read_cells (λ cells. entries_of (length store') store' cells) (get_elem? store' next))
unfolding Ok
dispatch_add-Handle lossy store this args little_endian store' next h e =
    let built : Handle store' next =
      subst (λ r. Built r) e (dispatch_add-Built lossy store this args little_endian h) in
    let place = get_elem?-Found 0 (length store') next store' built.acyclic built.inside in
    let below =
      entries_of-Reads (length store') next store' place.cells built.acyclic
        (from_start (length store') next _ place) (omega arith) in
    (
      built,
      record {
        found = below.found;
        is = ap (read_cells (λ cells. entries_of (length store') store' cells)) place.is ∙ below.is;
      },
    )
