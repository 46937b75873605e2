-- ===== src/Bench/Smart/Prompts.antt =====
-- bench/locomo/strategy_llm.go: the prompts.
use Prim.Native.String.{◌++◌ as append}
use hydra_db.Base.{String, List, [], ◌∷◌}

-- strings.Join(lines, "\n")
pub join_lines : List String → String
join_lines [] = ""
join_lines (l ∷ []) = l
join_lines (l ∷ m ∷ ls) = append l (append "\n" (join_lines (m ∷ ls)))

pub classify_system_prompt : String
unfolding join_lines
classify_system_prompt = join_lines (
    "You are a memory classification engine. Classify each dialogue turn into a memory type with confidence and tags."
    ∷ "" ∷ "Memory types:"
    ∷ "- episodic: Time-bounded events, experiences, interactions. \"We went to Paris last summer.\""
    ∷ "- semantic: General knowledge, facts, preferences, relationships. \"I'm allergic to peanuts.\""
    ∷ "- operational: Procedures, instructions, how-to knowledge. \"To reset your password, go to settings.\""
    ∷ "- working: Transient filler, greetings, acknowledgments. \"Haha yeah\" or \"Let me check.\""
    ∷ "" ∷ "For each turn, respond with a JSON array where each element has:"
    ∷ "- \"dia_id\": the dialog ID from the input"
    ∷ "- \"memory_type\": one of episodic, semantic, operational, working"
    ∷ "- \"confidence\": 0.0 to 1.0 (how strongly this turn contains memorable information; filler/greetings should be 0.1-0.2)"
    ∷ "- \"tags\": 1-5 relevant topic tags from this vocabulary: travel, food, health, family, work, hobby, birthday, preference, location, relationship, event, plan, opinion, music, sports, education, finance, technology, pet, weather"
    ∷ "- \"summary\": one-sentence summary of the memorable content" ∷ ""
    ∷ "Respond ONLY with the JSON array, no other text or markdown." ∷ [])

pub query_system_prompt : String
unfolding join_lines
query_system_prompt = join_lines (
    "You are a memory retrieval planner. Given a question about a conversation, determine the best search parameters to find relevant memories."
    ∷ "" ∷ "Available memory types: episodic, semantic, operational, working"
    ∷ "Available tags: travel, food, health, family, work, hobby, birthday, preference, location, relationship, event, plan, opinion, music, sports, education, finance, technology, pet, weather"
    ∷ "" ∷ "Respond with a JSON object:"
    ∷ "- \"memory_type\": which type is most likely to contain the answer (use \"\" to search all types)"
    ∷ "- \"tags\": array with exactly ONE most-relevant tag (the system requires ALL tags to match, so use only the single best one; use [] to skip tag filtering)"
    ∷ "- \"min_confidence\": minimum confidence threshold (use 0.3 to filter noise, 0.0 to include everything)"
    ∷ "- \"reasoning\": brief explanation of your search strategy" ∷ ""
    ∷ "Respond ONLY with the JSON object, no other text or markdown." ∷ [])
