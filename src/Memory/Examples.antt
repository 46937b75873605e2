-- ===== src/Memory/Examples.antt =====
-- internal/memory: the theorems at concrete inputs, with an insertion sort for `sort.Slice`.
use hydra_db.Memory.InsertionSort.{sorter, insert, insertion_sort}
use hydra_db.Base.{
  ◌<◌, ◌≤◌, false, true, ℕ, ◌≤◌, ◌≡◌, ◌⊎◌, inl, inr, refl, false, some, List, [], ◌∷◌, arith, Memᴰ,
  All, length, String, pos, put, empty, Ranges, put-Ranges, empty-Ranges, ltb, Time,
}
use hydra_db.Memory.Types.{Floats, SearchQuery}
use hydra_db.Base.{Option, put-Ranges, empty-Ranges, inl}
use hydra_db.Memory.InMemory.{provider}
use hydra_db.Agent.Tools.Records.{WriteInput, SearchInput, ToolFloats, Found, memory_write}
use hydra_db.Memory.InMemory.{Mem, State, newer, contains_all_tags, matches_query, search}
use hydra_db.Memory.InMemory.Query.{search_sound, search-NewestFirst, NewestFirst, search_complete}
use hydra_db.Memory.InMemory.Matches.{Meets}

-- Whole numbers in the place of the floats.
abbrev whole : Floats
whole = record { Float = ℕ; less = ltb; zero = 0; one = 1 }

abbrev memory_of : String → Time → Mem whole
memory_of id created = record {
  id = id;
  type = "semantic";
  content = "{}";
  tags = "go" ∷ "db" ∷ [];
  confidence = 1;
  actor_id = "ana";
  tenant_id = "t";
  metadata = empty;
  created_at = created;
  accessed_at = created;
  expires_at = 0;
}

abbrev old : Mem whole
old = memory_of "a" 10

abbrev young : Mem whole
young = memory_of "b" 20

abbrev state : State whole
state = put "b" young (put "a" old empty)

abbrev order : List (String × Mem whole)
order = ("b", young) ∷ ("a", old) ∷ []

abbrev query : SearchQuery ℕ
query = record {
  type = "semantic";
  tags = "db" ∷ [];
  actor_id = "";
  tenant_id = "t";
  limit = pos 1;
  since = 5;
  min_confidence = 1;
}

ranges : Ranges state order
ranges = put-Ranges "b" young (put-Ranges "a" old empty-Ranges tt) (refl, tt)

meets : Meets whole query old
meets = record {
  type = inr refl;
  tags = λ t m. asked t m;
  actor = inl refl;
  tenant = inr refl;
  recent = omega arith;
  confident = inr refl;
}
  where
    asked : (t : String) → Memᴰ t ("db" ∷ []) → Memᴰ t ("go" ∷ "db" ∷ [])
    asked t (Memᴰ.head e) = Memᴰ.tail (Memᴰ.head e)
    asked t (Memᴰ.tail m) = elim m [ ]

-- The query finds the newer of the two records, and its limit cuts off the other.
found : search whole sorter query order ≡ young ∷ []
unfolding search matches_query contains_all_tags insertion_sort insert
found = refl

is_found : Memᴰ young (search whole sorter query order)
is_found = rw found (Memᴰ.head refl)

search_sound_example : (k : String) × (state k ≡ some young) × Meets whole query young
search_sound_example = search_sound whole sorter query state order ranges young is_found

search-NewestFirst_example :
    let result = search whole sorter query order in
    NewestFirst whole result
    × (((n : ℕ) × (pos 1 ≡ pos n) × (0 < n) × (length result ≤ n))
        ⊎ ((false ≡ true) × (length result ≤ 50)))
search-NewestFirst_example = search-NewestFirst whole sorter query state order ranges

search_complete_example :
    let result = search whole sorter query order in
    Memᴰ old result ⊎ ((length result ≡ 1) × All (λ r. newer whole old r ≡ false) result)
search_complete_example = search_complete whole sorter query state order ranges "a" old refl meets

abbrev fresh : Mem whole
fresh = memory_of "c" 30

-- An agent that writes a record and then searches for its type.
abbrev numbers : ToolFloats
numbers = record { floats = whole; is_zero = λ x. false; default_confidence = 1 }

abbrev note : WriteInput String ℕ
note = record { memory_type = "working"; content = "{}"; actor_id = ""; confidence = 3; tags = [] }

abbrev by_type : SearchInput
by_type = record { type = "working"; tags = []; limit = pos 0; actor_id = "" }

abbrev noted : Mem whole
noted = record {
  id = "u";
  type = "working";
  content = "{}";
  tags = [];
  confidence = 3;
  actor_id = "agent";
  tenant_id = "default";
  metadata = empty;
  created_at = 40;
  accessed_at = 40;
  expires_at = 0;
}

abbrev visits : State whole → List (String × Mem whole)
visits s = ("u", noted) ∷ []

abbrev noted_state : State whole
noted_state =
    (memory_write numbers (provider whole sorter visits) (λ raw. some note) some (λ w. some "ok")
      "u" 40 "in" empty).0

abbrev prints : ℕ × List (Found ℕ) → Option String
prints out = some "found"
