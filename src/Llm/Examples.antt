-- ===== src/Llm/Examples.antt =====
-- internal/llm/client.go: the theorem at concrete inputs, and runs of the model.
use Prim.Native.String.{◌++◌ as append}
use hydra_db.Base.{
  ℕ, String, ◌≡◌, ◌↔◌, refl, true, none, some, [], ok, err, pos, Client, post_request,
}
use hydra_db.Llm.{
  CompleteRequest, CompleteResponse, LlmClient, LlmWire, sidecar_error, new_client, complete,
  health,
}
use hydra_db.Llm.Completed.{Completed, complete_iff}

abbrev prompt : CompleteRequest ℕ
prompt = record {
  system_prompt = "be brief";
  user_message = "hi";
  max_tokens = pos 9;
  temperature = none;
  model = "";
}

abbrev answered : (error : String) → CompleteResponse
answered error = record {
  text = "hello";
  usage = record { input_tokens = pos 3; output_tokens = pos 1 };
  error = error;
}

abbrev wire : LlmWire ℕ
wire = record {
  marshal = λ r. some r.user_message;
  unmarshal = λ raw. some (answered raw);
  error_field = λ raw. some raw;
  parses = λ url. true;
}

-- A sidecar that answers each post with the given status and body.
abbrev sidecar : ℕ → String → Client ℕ
sidecar status body request s = (s, some (record { status = status; body = some body }))

abbrev defaults : LlmClient
defaults = record { base_url = "http://llm"; timeout = pos 5 }

complete_iff_example : ((complete wire (sidecar 200 "") defaults prompt 0).1 ≡ ok (answered "")) ↔ (
    (body : String) × (wire.marshal prompt ≡ some body)
    × (wire.parses (append "http://llm" "/complete") ≡ true)
    × Completed wire
        ((sidecar 200 "") (post_request (append "http://llm" "/complete") body) 0).1
        (answered ""))
complete_iff_example = complete_iff wire (sidecar 200 "") defaults prompt 0 (answered "")

completed_run : (complete wire (sidecar 200 "") defaults prompt 0).1 ≡ ok (answered "")
unfolding complete
completed_run = refl

-- An error in the body of a 200 and one in the body of a 500 read alike.
failed_run : (complete wire (sidecar 200 "busy") defaults prompt 0).1 ≡ err (sidecar_error "busy")
unfolding complete
failed_run = refl

down_run : (complete wire (sidecar 500 "busy") defaults prompt 0).1 ≡ err (sidecar_error "busy")
unfolding complete
down_run = refl

default_run : (new_client []).base_url ≡ "http://localhost:3100"
unfolding new_client
default_run = refl

healthy_run : (health wire (sidecar 200 "") defaults 0).1 ≡ none
unfolding health
healthy_run = refl
