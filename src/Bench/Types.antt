-- ===== src/Bench/Types.antt =====
-- bench/locomo/types.go, and what the benchmark uses of Go's standard library.
use Prim.Native.String.{◌++◌ as append}
use hydra_db.Base.{
  String, Option, none, some, List, [], ◌∷◌, ℕ, ℤ, pos, eq_ℤ, if◌then◌else◌, GoMap, Time,
}
use hydra_db.Llm.{Usage}
use hydra_db.Memory.Types.{MemoryError}

abbrev pub Category : Type 0
Category = ℤ

abbrev single_hop : Category
single_hop = pos 1

abbrev temporal : Category
temporal = pos 2

abbrev multi_hop : Category
multi_hop = pos 3

abbrev open_domain : Category
open_domain = pos 4

abbrev adversarial : Category
adversarial = pos 5

-- `itoa` is `%d`.
pub category_string : (itoa : ℤ → String) → Category → String
category_string itoa c =
    if eq_ℤ c single_hop
    then "single_hop"
    else if eq_ℤ c temporal
    then "temporal"
    else if eq_ℤ c multi_hop
    then "multi_hop"
    else if eq_ℤ c open_domain
    then "open_domain"
    else if eq_ℤ c adversarial
    then "adversarial"
    else append "unknown(" (append (itoa c) ")")

abbrev pub all_categories : List Category
all_categories = single_hop ∷ temporal ∷ multi_hop ∷ open_domain ∷ adversarial ∷ []

pub record Turn : Type 0 where
  pub speaker : String
  pub dia_id : String
  pub text : String

pub record Session : Type 0 where
  pub index : ℤ
  pub date_time : String
  pub turns : List Turn

-- `answer` is raw JSON, kept as text.
pub record QaItem : Type 0 where
  pub question : String
  pub answer : String
  pub evidence : List String
  pub category : Category
  pub adversarial_answer : String

-- `parse_text` reads a JSON string.
abbrev answer_text : (parse_text : String → Option String) → QaItem → String
answer_text parse_text q = elim (parse_text q.answer) [ some s ↦ s | none ↦ q.answer ]

pub record Sample : Type 0 where
  pub sample_id : String
  pub speaker_a : String
  pub speaker_b : String
  pub sessions : List Session
  pub qa : List QaItem

-- The identifiers of the dialogue retrieved for a question.
pub record QueryResult : Type 0 where
  pub qa : QaItem
  pub retrieved_ids : List String

-- `F` is float64.
pub record QuestionScore (F : Type 0) : Type 0 where
  pub question : String
  pub category : Category
  pub precision : F
  pub recall : F
  pub f1 : F
  pub retrieved : ℕ
  pub evidence : ℕ

pub record CategoryScore (F : Type 0) : Type 0 where
  pub category : String
  pub count : ℕ
  pub precision : F
  pub recall : F
  pub f1 : F

pub record BenchResult (F : Type 0) : Type 0 where
  pub provider : String
  pub samples : ℕ
  pub questions : ℕ
  pub categories : List (CategoryScore F)
  pub overall : CategoryScore F
  pub tokens : Option Usage
  pub plan_fallbacks : ℤ

-- The arithmetic of float64 that the benchmark uses, with its constants 0.2, 0.5 and 2, and the
-- conversion of an `int`.
pub record Arithmetic (F : Type 0) : Type 0 where
  pub add : F → F → F
  pub mul : F → F → F
  pub div : F → F → F
  pub of_nat : ℕ → F
  pub fifth : F
  pub half : F
  pub two : F

-- `fmt`'s `%d`; `time.Parse`; and `encoding/json`: a map of texts, and the `dia_id` of a content
-- (`none` where that fails).
pub record Library : Type 0 where
  pub itoa : ℤ → String
  pub parse_time : (format text : String) → Option Time
  pub marshal : GoMap String → Option String
  pub content_dia_id : String → Option String

-- The identifiers that are generated and the clock, while one sample is ingested: for the n-th
-- record, and for the n-th session.
pub record Stamps : Type 0 where
  pub uuid : ℕ → String
  pub made : ℕ → Time
  pub opened : ℕ → Time

pub data BenchError : Type 0 where
  marshal_turn : (dia_id : String) → BenchError
  store_turn : (dia_id : String) → MemoryError → BenchError
  search_failed : (question : String) → MemoryError → BenchError
  search_all_failed : MemoryError → BenchError
