-- ===== src/Agent/Tools/Completion.antt =====
-- internal/agent/tools/llm_complete.go: the tool that completes a prompt by the sidecar.
use hydra_db.Base.{
  String, ◌≡◌, ◌⊎◌, inl, inr, refl, Bool, true, false, ◌||◌, Option, none, some, Outcome, ok, err,
  if◌then◌else◌, str_eq, ℤ, Client,
}
use hydra_db.Llm.{CompleteRequest, CompleteResponse, Usage, LlmClient, LlmError, LlmWire, complete}

pub record LlmInput (F : Type 0) : Type 0 where
  pub system_prompt : String
  pub user_message : String
  pub max_tokens : ℤ
  pub temperature : Option F

pub record LlmOutput : Type 0 where
  pub text : String
  pub usage : Usage

pub data CompletionError : Type 0 where
  bad_input prompts_required bad_output : CompletionError
  not_completed : LlmError → CompletionError

-- The request leaves the model to the sidecar.
unfoldable pub request_of : {F : Type 0} → LlmInput F → CompleteRequest F
request_of input = record {
  system_prompt = input.system_prompt;
  user_message = input.user_message;
  max_tokens = input.max_tokens;
  temperature = input.temperature;
  model = "";
}

unfoldable pub printed_completion :
    (LlmOutput → Option String) → Outcome LlmError CompleteResponse → Outcome CompletionError String
printed_completion marshal (err e) = err (not_completed e)
printed_completion marshal (ok r) = elim (marshal (record { text = r.text; usage = r.usage })) [
  | none ↦ err bad_output
  | some out ↦ ok out
]

or_true : (b : Bool) → b || true ≡ true
or_true true = refl
or_true false = refl

module _ {F S : Type 0} (wire : LlmWire F) (client : Client S) (llm : LlmClient)
    (unmarshal : String → Option (LlmInput F)) (marshal : LlmOutput → Option String) where
  -- `LLMCompleteTool.Execute`
  unfoldable pub llm_complete : (raw : String) → S → S × Outcome CompletionError String
  unfolding request_of printed_completion
  llm_complete raw s = elim (unmarshal raw) [
    | none ↦ (s, err bad_input)
    | some input ↦
        if str_eq input.system_prompt "" || str_eq input.user_message ""
        then (s, err prompts_required)
        else (let (s', r) = complete wire client llm (request_of input) s in
            (s', printed_completion marshal r))
  ]

  -- The sidecar is not asked unless both prompts are given.
  pub llm_complete_unasked :
      (raw : String) (s : S) (input : LlmInput F)
      → unmarshal raw ≡ some input
      → (input.system_prompt ≡ "") ⊎ (input.user_message ≡ "")
      → llm_complete raw s ≡ (s, err prompts_required)
  unfolding llm_complete
  llm_complete_unasked raw s input reads (inl e) = rw (reads, llm_complete, e) refl
  llm_complete_unasked raw s input reads (inr e) =
      rw (reads, llm_complete, e) (rw (or_true (str_eq input.system_prompt "")) refl)
