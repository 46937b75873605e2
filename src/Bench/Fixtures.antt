-- ===== src/Bench/Fixtures.antt =====
-- A sample of two turns and a question, for the examples of bench/locomo.
use Prim.Native.String.{◌++◌ as append, count}
use text.Mathlib.TextLemmas.{length-append}
use hydra_db.Base.{
  ℕ, zero, suc, ◌+◌, ◌*◌, String, ◌≡◌, refl, ap, ◌∙◌, none, some, List, [], ◌∷◌, ltb, pos, arith,
}
use hydra_db.Memory.Types.{Floats}
use hydra_db.Memory.InMemory.{Mem, State}
use hydra_db.Bench.Types.{Turn, QaItem, Sample, Library, Stamps, Arithmetic}
use hydra_db.Bench.Ingest.Stored.{IsFresh}
use hydra_db.Bench.Ingest.Turns.{Marshals}
use hydra_db.Bench.Score.{TextSet}

-- Whole numbers in the place of the floats.
abbrev pub whole : Floats
whole = record { Float = ℕ; less = ltb; zero = 0; one = 1 }

abbrev pub whole_arithmetic : Arithmetic ℕ
whole_arithmetic = record {
  add = ◌+◌;
  mul = ◌*◌;
  div = λ a b. a;
  of_nat = λ n. n;
  fifth = 0;
  half = 0;
  two = 2;
}

unfoldable pub uuid : ℕ → String
uuid zero = "u"
uuid (suc n) = append "u" (uuid n)

count-uuid : (n : ℕ) → count (uuid n) ≡ suc n
unfolding uuid
count-uuid zero = refl
count-uuid (suc n) = length-append "u" (uuid n) ∙ omega (arith, count-uuid n)

abbrev pub stamps : Stamps
stamps = record { uuid = uuid; made = λ n. 7; opened = λ n. 9 }

pub fresh : IsFresh stamps
fresh a b e = omega (arith, count-uuid a, count-uuid b, ap count e)

abbrev pub lib : Library
lib = record {
  itoa = λ z. "1";
  parse_time = λ f t. none;
  marshal = λ content. some "{}";
  content_dia_id = λ content. none;
}

pub marshals : Marshals lib
marshals content = ("{}", refl)

abbrev pub first : Turn
first = record { speaker = "ana"; dia_id = "d1"; text = "hello" }

abbrev pub second : Turn
second = record { speaker = "bob"; dia_id = "d2"; text = "to Paris" }

abbrev pub asked : QaItem
asked = record {
  question = "where to?";
  answer = "\"Paris\"";
  evidence = "d2" ∷ [];
  category = pos 1;
  adversarial_answer = "";
}

abbrev pub sample : Sample
sample = record {
  sample_id = "s";
  speaker_a = "ana";
  speaker_b = "bob";
  sessions = record { index = pos 1; date_time = "?"; turns = first ∷ second ∷ [] } ∷ [];
  qa = asked ∷ [];
}

abbrev pub entry : String → State whole → List (String × Mem whole) → List (String × Mem whole)
entry id s rest = elim (s id) [ none ↦ rest | some m ↦ (id, m) ∷ rest ]

abbrev pub visit : State whole → List (String × Mem whole)
visit s = entry "uu" s (entry "u" s [])

-- d1 was put in last.
abbrev pub visit_set : TextSet → List (String × Unit {0})
visit_set s = has "d1" (has "d2" [])
  where
    has : String → List (String × Unit {0}) → List (String × Unit {0})
    has k rest = elim (s k) [ none ↦ rest | some u ↦ (k, u) ∷ rest ]
