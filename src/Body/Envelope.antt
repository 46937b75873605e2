-- ===== src/Body/Envelope.antt =====
-- internal/body/envelope.go: the message that flows between the heads.
pub mod Laws
use hydra_db.Base.{
  String, ◌≡◌, ◌≢◌, Bool, true, false, Option, none, some, List, [], ◌∷◌, Outcome, ok, err,
  if◌then◌else◌, GoMap, empty, put, str_eq, Time,
}

pub data EnvelopeType : Type 0 where
  request response event error : EnvelopeType

abbrev pub actor_human : String
actor_human = "human"

-- The kind of an actor is a text, which `Validate` alone checks.
pub record Identity : Type 0 where
  pub id : String
  pub kind : String
  pub roles : List String
  pub tenant_id : String

pub record Tenant : Type 0 where
  pub id : String
  pub name : String

-- A nil map of metadata reads as an empty one, and is replaced before a write.
pub record Envelope : Type 0 where
  pub id : String
  pub trace_id : String
  pub actor : Identity
  pub tenant : Tenant
  pub type : EnvelopeType
  pub action : String
  pub payload : String
  pub metadata : GoMap String
  pub timestamp : Time

pub data PayloadError : Type 0 where
  marshal_payload : PayloadError
  payload_empty : PayloadError
  unmarshal_payload : PayloadError

-- `encoding/json` at a Go type `A`: `none` is an error. What is printed can be read back, and is
-- not the empty text.
pub record Json (A : Type 0) : Type 0 where
  pub marshal : A → Option String
  pub unmarshal : String → Option A
  pub not_empty : (a : A) {s : String} → marshal a ≡ some s → s ≢ ""
  pub reads_back : (a : A) {s : String} → marshal a ≡ some s → unmarshal s ≡ some a

-- `id` and `trace` are the generated identifiers, and `now` the clock.
unfoldable pub new_envelope :
    (id trace : String) (now : Time) → EnvelopeType → String → Identity → Tenant → Envelope
new_envelope id trace now typ action actor tenant = record {
  id = id;
  trace_id = trace;
  actor = actor;
  tenant = tenant;
  type = typ;
  action = action;
  payload = "";
  metadata = empty;
  timestamp = now;
}

module _ {A : Type 0} (json : Json A) where
  unfoldable pub with_payload : A → Envelope → Outcome PayloadError Envelope
  with_payload v e = elim (json.marshal v) [
    | none ↦ err marshal_payload
    | some s ↦ ok (record e { payload = s })
  ]

  unfoldable pub decode_payload : Envelope → Outcome PayloadError A
  decode_payload e =
      if str_eq e.payload ""
      then err payload_empty
      else (elim (json.unmarshal e.payload) [ none ↦ err unmarshal_payload | some v ↦ ok v ])

-- The metadata are copied, so the envelope that they came from keeps its own.
unfoldable pub with_metadata : (key value : String) → Envelope → Envelope
with_metadata key value e = record e { metadata = put key value e.metadata }
