-- ===== src/Memory/Tdb/Examples.antt =====
-- internal/memory/tdb/provider.go: the theorems at concrete inputs, and runs of the model.
use Prim.Native.String.{◌++◌ as append}
use hydra_db.Base.{
  get_request, post_request, Client, ℕ, String, ◌≡◌, ◌↔◌, refl, none, some, List, [], ◌∷◌, map, ok,
  err, if◌then◌else◌, str_eq, ℤ, pos, ltb,
}
use hydra_db.Memory.Types.{SearchQuery}
use hydra_db.Memory.Tdb.{TdbFloats, Cell, Wire, not_found}
use hydra_db.Memory.Tdb.Calls.{Mem, memory_of_cell, write_body, read_body, write, read, search}
use hydra_db.Memory.Tdb.Answers.{Answered}
use hydra_db.Memory.Tdb.Success.{success_iff}

-- A service that holds one cell, and numbers in place of floats.
abbrev numbers : TdbFloats
numbers = record {
  floats = record { Float = ℕ; less = ltb; zero = 0; one = 1 };
  Float32 = ℕ;
  key_entry = λ n. n;
  times_100 = λ x. x;
  over_100 = λ x. x;
}

abbrev the_cell : Cell numbers
the_cell = record { cell_id = pos 7; owner = "ada"; layer = pos 3; importance = 5 }

abbrev wire : Wire numbers
wire = record {
  bytes = λ s. [];
  decimal = λ n. "7";
  marshal_write = λ b. some b.owner;
  marshal_read = λ b. some "query";
  marshal_query = λ q. none;
  unmarshal_written = λ raw. some (pos 7);
  unmarshal_cell = λ raw. if str_eq raw "cell" then some the_cell else none;
  unmarshal_results = λ raw. some (the_cell ∷ []);
}

abbrev client : Client ℕ
client (get_request url) s = (
  s,
  some (record {
    status = if str_eq url "http://tdb/cells/7" then 200 else 404;
    body = some "cell";
  }),
)
client (post_request url body) s = (s, none)

success_iff_example :
    ((id : String) (mem : Mem numbers)
      → ((read numbers wire "http://tdb" client id 0).1 ≡ ok mem) ↔ (
          (cell : Cell numbers) × Answered wire.unmarshal_cell
            (client (get_request (append "http://tdb" (append "/cells/" id))) 0).1
            cell
          × (memory_of_cell numbers id cell ≡ mem)))
    × ((q : SearchQuery ℕ) (mems : List (Mem numbers))
        → ((search numbers wire "http://tdb" client q 0).1 ≡ ok mems) ↔ (
            (body : String) × (cells : List (Cell numbers)) × (wire.marshal_read
                (read_body numbers wire q)
              ≡ some body)
            × Answered wire.unmarshal_results
                (client (post_request (append "http://tdb" "/mem/read") body) 0).1
                cells
            × (map (λ (c : Cell numbers). memory_of_cell numbers (wire.decimal c.cell_id) c) cells
                ≡ mems)))
    × ((mem : Mem numbers)
        → ((write numbers wire "http://tdb" client mem 0).1 ≡ none) ↔ (
            (body : String) × (cell_id : ℤ) × (wire.marshal_write (write_body numbers wire mem)
              ≡ some body)
            × Answered wire.unmarshal_written
                (client (post_request (append "http://tdb" "/mem/write") body) 0).1
                cell_id))
success_iff_example = success_iff numbers wire "http://tdb" client 0

read_run :
    (read numbers wire "http://tdb" client "7" 0).1 ≡ ok (memory_of_cell numbers "7" the_cell)
unfolding read
read_run = refl

missing_run : (read numbers wire "http://tdb" client "8" 0).1 ≡ err (not_found "8")
unfolding read
missing_run = refl
