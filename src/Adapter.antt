-- ===== src/Adapter.antt =====
-- internal/adapter: messages of three transports as envelopes, and back. The JSON is a parameter; the
-- identifiers of a new envelope and the clock are arguments. A nil map of metadata is `none`.
pub mod Uniform
mod Examples
use Prim.Native.String.{◌++◌ as append}
use hydra_db.Base.{
  String, Bool, true, false, not, Option, none, some, List, [], ◌∷◌, Outcome, ok, err,
  if◌then◌else◌, str_eq, GoMap, empty, put, Time,
}
use hydra_db.Body.Envelope.{
  Envelope, EnvelopeType, Identity, Tenant, request, error, actor_human, new_envelope,
}

pub data AdapterError : Type 0 where
  bad_json action_required bad_envelope bad_message : AdapterError

-- The inputs.
pub record CliInput : Type 0 where
  pub action : String
  pub input : String
  pub actor_id : String
  pub tenant_id : String

pub record HttpInput : Type 0 where
  pub action : String
  pub actor_id : String
  pub actor_kind : String
  pub tenant_id : String

pub record SlackEvent : Type 0 where
  pub text : String
  pub user : String
  pub channel : String
  pub team_id : String

-- The envelope that the adapters start from: an actor without roles, and a tenant without a name.
unfoldable pub from_transport :
    (id trace : String) (now : Time) → (action actor_id kind tenant_id : String) → Envelope
unfolding new_envelope
from_transport id trace now action actor_id kind tenant_id =
    new_envelope id trace now request action
      (record { id = actor_id; kind = kind; roles = []; tenant_id = tenant_id })
      (record { id = tenant_id; name = "" })

-- The metadata are copied, if there are any.
unfoldable pub copy_metadata : Option (GoMap String) → GoMap String
copy_metadata none = empty
copy_metadata (some m) = m

-- The JSON that an adapter makes: `none` is an error, which leaves no text.
abbrev pub or_nil : Option String → String
or_nil none = ""
or_nil (some s) = s

module _ (id trace : String) (now : Time) where
  abbrev pub cli_envelope :
      (marshal_input : String → Option String) → Option (GoMap String) → CliInput → Envelope
  cli_envelope marshal_input metadata input =
      record (from_transport id trace now input.action input.actor_id actor_human input.tenant_id) {
        payload = or_nil (marshal_input input.input);
        metadata = copy_metadata metadata;
      }

  abbrev pub http_envelope : (raw : String) → Option (GoMap String) → HttpInput → Envelope
  http_envelope raw metadata input =
      record (from_transport id trace now input.action input.actor_id
        (if str_eq input.actor_kind "" then actor_human else input.actor_kind) input.tenant_id) {
          payload = raw;
          metadata = copy_metadata metadata;
        }

  abbrev pub slack_envelope :
      (marshal_event : SlackEvent → Option String) → Option (GoMap String) → SlackEvent → Envelope
  slack_envelope marshal_event metadata event =
      record (from_transport id trace now "chat" event.user actor_human event.team_id) {
        payload = or_nil (marshal_event event);
        metadata = put "channel" event.channel (copy_metadata metadata);
      }

  -- `ConvertToEnvelope` of cli; `marshal_input` prints the map with the one field `input`.
  unfoldable pub cli_to_envelope :
      (unmarshal : String → Option CliInput) (marshal_input : String → Option String)
      → (raw : String) → Option (GoMap String)
      → Outcome AdapterError Envelope
  cli_to_envelope unmarshal marshal_input raw metadata = elim (unmarshal raw) [
    | none ↦ err bad_json
    | some input ↦
        if str_eq input.action ""
        then err action_required
        else ok (cli_envelope marshal_input metadata input)
  ]

  -- `ConvertToEnvelope` of http.
  unfoldable pub http_to_envelope :
      (unmarshal : String → Option HttpInput)
      → (raw : String) → Option (GoMap String)
      → Outcome AdapterError Envelope
  http_to_envelope unmarshal raw metadata = elim (unmarshal raw) [
    | none ↦ err bad_json
    | some input ↦
        if str_eq input.action ""
        then err action_required
        else ok (http_envelope raw metadata input)
  ]

  -- `ConvertToEnvelope` of slack; `marshal_event` prints the map with the four fields.
  unfoldable pub slack_to_envelope :
      (unmarshal : String → Option SlackEvent) (marshal_event : SlackEvent → Option String)
      → (raw : String) → Option (GoMap String)
      → Outcome AdapterError Envelope
  slack_to_envelope unmarshal marshal_event raw metadata = elim (unmarshal raw) [
    | none ↦ err bad_json
    | some event ↦ ok (slack_envelope marshal_event metadata event)
  ]

-- `ConvertFromEnvelope` of cli. `strings.TrimSpace`, `strings.Trim` of quotes, and the JSON with an
-- indentation, which is `none` for a text that is no JSON, are parameters.
unfoldable pub cli_from_envelope :
    (trim_space trim_quotes : String → String) (pretty : String → Option String) → Envelope → String
cli_from_envelope trim_space trim_quotes pretty env = elim env.type [
  | error ↦ append "ERROR: " (trim_quotes (trim_space env.payload))
  | _ ↦ append "Action: " (
      append env.action
        (append "\nResult: " (if str_eq env.payload "" then "" else or_nil (pretty env.payload))))
]

-- `ConvertFromEnvelope` of http.
unfoldable pub http_from_envelope :
    (marshal : Envelope → Option String) → Envelope → Outcome AdapterError String
http_from_envelope marshal env = elim (marshal env) [ none ↦ err bad_envelope | some s ↦ ok s ]

-- `ConvertFromEnvelope` of slack. `text_field` reads the field `text` of a JSON object, and
-- `marshal_text` prints the map with that field.
unfoldable pub slack_text : (text_field : String → Option String) → (payload : String) → String
slack_text text_field payload = if str_eq payload "" then "" else (elim (text_field payload) [
  | none ↦ payload
  | some t ↦ if str_eq t "" then payload else t
])

unfoldable pub slack_from_envelope :
    (text_field marshal_text : String → Option String) → Envelope → Outcome AdapterError String
unfolding slack_text
slack_from_envelope text_field marshal_text env =
    elim (marshal_text (slack_text text_field env.payload)) [
      | none ↦ err bad_message
      | some s ↦ ok s
    ]

-- `VerifySignature`. `hmac` is the HMAC-SHA256 of a text under a key, in hexadecimal digits.
unfoldable pub verify_signature :
    (hmac : (key text : String) → String) (signing_secret : String)
    → (body timestamp signature : String) → Bool
verify_signature hmac signing_secret body timestamp signature =
    if str_eq signing_secret ""
    then true
    else (let base = append "v0:" (append timestamp (append ":" body)) in
        str_eq (append "v0=" (hmac signing_secret base)) signature)
