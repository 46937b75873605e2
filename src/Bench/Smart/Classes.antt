-- ===== src/Bench/Smart/Classes.antt =====
-- bench/locomo/strategy_llm.go: the answers of the LLM, as texts and as classifications.
use hydra_db.Base.{
  ℕ, zero, suc, String, Option, none, List, [], ◌∷◌, GoMap, put, if◌then◌else◌, str_eq, map,
}
use hydra_db.Memory.Types.{Floats, episodic, semantic, operational, working}
use hydra_db.Bench.Types.{Turn, Arithmetic}

pub record TurnClassification (F : Type 0) : Type 0 where
  pub dia_id : String
  pub memory_type : String
  pub confidence : F
  pub tags : List String
  pub summary : String

pub record SmartSearchQuery (F : Type 0) : Type 0 where
  pub memory_type : String
  pub tags : List String
  pub min_confidence : F
  pub reasoning : String

-- The parts of `strings` that the strategy uses, and `encoding/json` on the answers of the LLM.
pub record Texts (F : Type 0) : Type 0 where
  pub trim_space : String → String
  pub to_lower : String → String
  pub trim_prefix : (s prefix : String) → String
  pub trim_suffix : (s suffix : String) → String
  pub classifications : String → Option (List (TurnClassification F))
  pub smart_query : String → Option (SmartSearchQuery F)

module _ {F : Type 0} (texts : Texts F) where
  unfoldable pub clean_json : String → String
  clean_json s =
      let unfenced = texts.trim_prefix (texts.trim_prefix (texts.trim_space s) "```json") "```" in
      texts.trim_space (texts.trim_suffix unfenced "```")

  unfoldable pub parse_memory_type : String → String
  parse_memory_type s =
      let t = texts.to_lower (texts.trim_space s) in
      if str_eq t "episodic"
      then episodic
      else if str_eq t "semantic"
      then semantic
      else if str_eq t "operational"
      then operational
      else if str_eq t "working"
      then working
      else episodic

  -- What a text is parsed to, unless it is empty.
  abbrev pub parse_answer : {A : Type 0} → (String → Option A) → String → Option A
  parse_answer parse text = if str_eq text "" then none else parse text

unfoldable pub clamp_confidence : (fl : Floats) → fl.Float → fl.Float
clamp_confidence fl c =
    if fl.less c fl.zero then fl.zero else if fl.less fl.one c then fl.one else c

-- What `fallbackClassify` makes of a turn; also the classification of a turn that the LLM leaves out.
abbrev pub basic_classification : {F : Type 0} → Arithmetic F → Turn → TurnClassification F
basic_classification fa t = record {
  dia_id = t.dia_id;
  memory_type = "episodic";
  confidence = fa.half;
  tags = [];
  summary = t.text;
}

unfoldable pub fallback_classify :
    {F : Type 0} → Arithmetic F → List Turn → List (TurnClassification F)
fallback_classify fa turns = map (basic_classification fa) turns

unfoldable pub class_map :
    {F : Type 0}
    → List (TurnClassification F)
    → GoMap (TurnClassification F)
    → GoMap (TurnClassification F)
class_map [] m = m
class_map (c ∷ cs) m = class_map cs (put c.dia_id c m)

-- turns[from:]
abbrev pub drop : {A : Type 0} → ℕ → List A → List A
drop zero xs = xs
drop (suc n) [] = []
drop (suc n) (x ∷ xs) = drop n xs

abbrev pub classify_batch_size : ℕ
classify_batch_size = 15
