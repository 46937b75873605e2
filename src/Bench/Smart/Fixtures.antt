-- ===== src/Bench/Smart/Fixtures.antt =====
-- An LLM that classifies one turn, oddly, and makes no plan, for the examples of bench/locomo.
use hydra_db.Base.{ℕ, ◌+◌, refl, [], ◌∷◌, some, none, pos, Client, true}
use hydra_db.Llm.{LlmWire}
use hydra_db.Bench.Fixtures.{whole}
use hydra_db.Bench.Smart.{TurnClassification, Texts, LlmStrategy}
use hydra_db.Bench.Smart.Stored.{IsOrdered}

pub ordered : IsOrdered whole
ordered = record { zero_zero = refl; one_one = refl; one_zero = refl }

-- An answer for the first turn only, with a kind that has no name and a confidence above 1.
abbrev pub odd : TurnClassification ℕ
odd = record {
  dia_id = "d1";
  memory_type = "???";
  confidence = 300;
  tags = "travel" ∷ [];
  summary = "a greeting";
}

-- Every text is a classification, and none is a plan.
abbrev pub texts : Texts ℕ
texts = record {
  trim_space = λ s. s;
  to_lower = λ s. s;
  trim_prefix = λ s prefix. s;
  trim_suffix = λ s suffix. s;
  classifications = λ s. some (odd ∷ []);
  smart_query = λ s. none;
}

abbrev pub wire : LlmWire ℕ
wire = record {
  marshal = λ r. some "{}";
  unmarshal = λ s. some (record {
    text = "[]";
    usage = record { input_tokens = pos 3; output_tokens = pos 1 };
    error = "";
  });
  error_field = λ s. none;
  parses = λ url. true;
}

abbrev pub http : Client ℕ
http request n = (n + 1, some (record { status = 200; body = some "{}" }))

abbrev pub before : LlmStrategy ℕ
before = record {
  client = record { base_url = "http://l"; timeout = pos 9 };
  total_usage = record { input_tokens = pos 0; output_tokens = pos 0 };
  plan_fallbacks = pos 0;
  world = 0;
}
