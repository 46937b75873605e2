-- ===== src/Agent/Tools/Records/Remembered.antt =====
-- internal/agent/tools/memory.go: what an agent wrote, it finds again.
use hydra_db.Base.{String, ◌≡◌, true, Option, none, some, List, Time}
use hydra_db.Memory.Plane.{search}
use hydra_db.Memory.Sorting.{Sorter}
use hydra_db.Memory.InMemory.{Mem, State, search as search_memory, provider}
use hydra_db.Agent.Tools.Records.{
  WriteInput, Written, ToolFloats, parse_memory_type, record_of, memory_write,
}

module _ (fl : ToolFloats) {Content : Type 0} (sorter : Sorter (Mem fl.floats))
    (visit : State fl.floats → List (String × Mem fl.floats))
    (read_input : String → Option (WriteInput Content fl.floats.Float))
    (print_content : Content → Option String) (print_written : Written → Option String)
    (uuid : String) (now : Time) (raw : String) (s : State fl.floats)
    (input : WriteInput Content fl.floats.Float) (content : String)
    (reads : read_input raw ≡ some input) (known : (parse_memory_type input.memory_type).1 ≡ true)
    (prints : print_content input.content ≡ some content) (free : s uuid ≡ none) where
  abbrev pub remembered : Mem fl.floats
  remembered = record_of fl uuid now input content

  abbrev pub after : State fl.floats
  after =
      (memory_write fl (provider fl.floats sorter visit) read_input print_content print_written uuid
        now raw s).0
