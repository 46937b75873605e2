-- ===== src/Adapter/Examples.antt =====
-- internal/adapter: the theorem at concrete inputs, and runs of the model.
use hydra_db.Base.{◌≡◌, refl, true, false, none, some, err, empty, put}
use hydra_db.Adapter.{
  CliInput, HttpInput, SlackEvent, action_required, cli_to_envelope, http_to_envelope,
  slack_to_envelope, verify_signature,
}
use hydra_db.Adapter.Uniform.{Converted, cli_parts, http_parts, slack_parts, converted}

abbrev typed : CliInput
typed = record { action = "chat"; input = "hi"; actor_id = "ana"; tenant_id = "t" }

abbrev posted : HttpInput
posted = record { action = ""; actor_id = "ana"; actor_kind = "agent"; tenant_id = "t" }

abbrev said : SlackEvent
said = record { text = "hi"; user = "ana"; channel = "c"; team_id = "t" }

converted_example :
    Converted "i" "t"
      (some (put "k" "v" empty))
      (some typed)
      (λ input. input.action ≡ "")
      (cli_parts some)
      (cli_to_envelope "i" "t" 5 (λ r. some typed) some "raw" (some (put "k" "v" empty)))
    × Converted "i" "t"
        (some (put "k" "v" empty))
        (some posted)
        (λ input. input.action ≡ "")
        (http_parts "raw")
        (http_to_envelope "i" "t" 5 (λ r. some posted) "raw" (some (put "k" "v" empty)))
    × Converted "i" "t"
        (some (put "k" "v" empty))
        (some said)
        (λ event. ⊥)
        (slack_parts (λ e. some e.text))
        (slack_to_envelope "i" "t" 5
          (λ r. some said)
          (λ e. some e.text)
          "raw"
          (some (put "k" "v" empty)))
converted_example =
    converted "i" "t" 5 "raw" (some (put "k" "v" empty)) (λ r. some typed) some (λ r. some posted)
      (λ r. some said) (λ e. some e.text)

-- A request over HTTP without an action is refused.
unnamed_run : http_to_envelope "i" "t" 5 (λ r. some posted) "raw" none ≡ err action_required
unfolding http_to_envelope
unnamed_run = refl

-- Without a secret every signature passes.
unsigned_run : verify_signature (λ key text. text) "" "body" "1" "forged" ≡ true
unfolding verify_signature
unsigned_run = refl

signed_run : verify_signature (λ key text. "00") "secret" "body" "1" "v0=01" ≡ false
unfolding verify_signature
signed_run = refl
