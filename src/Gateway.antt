-- ===== src/Gateway.antt =====
-- internal/gateway/gateway.go: requests over HTTP are turned into envelopes for the handler of their
-- action, and what it answers into a response. A handler acts on the world `W`.
pub mod Laws
mod Examples
use Prim.Native.String.{◌++◌ as append}
use hydra_db.Base.{
  ℕ, String, Bool, true, false, not, Option, none, some, List, [], ◌∷◌, Outcome, ok, err,
  if◌then◌else◌, str_eq, GoMap, empty, put, Time,
}
use hydra_db.Body.Health.{HealthReport, healthy, unhealthy}
use hydra_db.Body.Config.{GatewayConfig}
use hydra_db.Body.Envelope.{Envelope, Identity, Tenant, request}

-- What a handler does: it returns an envelope, which may be nil, or an error; or it panics.
pub data Answer : Type 0 where
  answers : Outcome String (Option Envelope) → Answer
  panics : Answer

-- A request as the handler reads it. `body` is `none` if reading it fails.
pub record HttpRequest : Type 0 where
  pub method : String
  pub action : String
  pub trace_header : String
  pub authorization : String
  pub body : Option String

pub data ResponseBody : Type 0 where
  no_body : ResponseBody
  error_body : (message trace_id : String) → ResponseBody
  envelope_body : Option Envelope → ResponseBody

pub record HttpResponse : Type 0 where
  pub status : ℕ
  pub headers : List (String × String)
  pub body : ResponseBody

-- setCORS
abbrev pub cors : List (String × String)
cors =
    ("Access-Control-Allow-Origin", "*")
    ∷ ("Access-Control-Allow-Methods", "POST, GET, OPTIONS")
    ∷ ("Access-Control-Allow-Headers", "Content-Type, Authorization, X-Trace-ID")
    ∷ []

abbrev pub json_headers : List (String × String)
json_headers = ("Content-Type", "application/json") ∷ cors

write_json : ℕ → Option Envelope → HttpResponse
write_json status v = record { status = status; headers = json_headers; body = envelope_body v }

write_error : ℕ → (trace_id message : String) → HttpResponse
write_error status trace_id message = record {
  status = status;
  headers = json_headers;
  body = error_body message trace_id;
}

-- The actor and the tenant of an envelope that the gateway makes are Go's zero values.
abbrev pub no_identity : Identity
no_identity = record { id = ""; kind = ""; roles = []; tenant_id = "" }

abbrev pub no_tenant : Tenant
no_tenant = record { id = ""; name = "" }

abbrev pub trace_of : (uuid : String) → HttpRequest → String
trace_of uuid r = if str_eq r.trace_header "" then uuid else r.trace_header

-- `uuid` and `env_id` are the generated identifiers, and `now` the clock.
unfoldable pub envelope_of :
    (uuid env_id : String) (now : Time) → HttpRequest → (payload : String) → Envelope
envelope_of uuid env_id now r payload = record {
  id = env_id;
  trace_id = trace_of uuid r;
  actor = no_identity;
  tenant = no_tenant;
  type = request;
  action = r.action;
  payload = payload;
  metadata = if str_eq r.authorization "" then empty else put "authorization" r.authorization empty;
  timestamp = now;
}

-- What is written for a handler's answer; a panic is caught by `ServeHTTP`.
respond : (trace_id : String) → Answer → HttpResponse
unfolding write_error write_json
respond trace_id (answers (ok resp)) = write_json 200 resp
respond trace_id (answers (err e)) = write_error 500 trace_id e
respond trace_id panics = write_error 500 "" "internal server error"

module _ (W : Type 0) where
  abbrev pub HandlerFunc : Type 0
  HandlerFunc = Envelope → W → W × Answer

  pub record Gateway : Type 0 where
    pub cfg : GatewayConfig
    pub routes : GoMap HandlerFunc
    pub running : Bool

module _ {W : Type 0} where
  unfoldable pub new_gateway : GatewayConfig → Gateway W
  new_gateway cfg = record { cfg = cfg; routes = empty; running = false }

  unfoldable pub register_handler : String → HandlerFunc W → Gateway W → Gateway W
  register_handler action handler g = record g { routes = put action handler g.routes }

  -- `Start`, for what `net.Listen` answers; `Serve`'s end in the background; and `Stop`.
  unfoldable pub start : (listen : Option String) → Gateway W → Gateway W × Option String
  start (some e) g = (g, some e)
  start none g = (record g { running = true }, none)

  unfoldable pub stopped : Gateway W → Gateway W
  stopped g = record g { running = false }

  unfoldable pub health : Gateway W → HealthReport
  health g =
      if g.running
      then record { head = "gateway"; status = healthy; detail = "" }
      else record { head = "gateway"; status = unhealthy; detail = "not running" }

  call : (trace_id : String) → HandlerFunc W → Envelope → W → W × HttpResponse
  unfolding respond
  call trace_id handler env w = ((handler env w).0, respond trace_id (handler env w).1)

  -- From the reading of the body on. `is_object` tells whether `json.Unmarshal` reads a text as a map.
  handle_body :
      (is_object : String → Bool) (uuid env_id : String) (now : Time)
      → HandlerFunc W
      → HttpRequest
      → Option String
      → W
      → W × HttpResponse
  unfolding call envelope_of write_error
  handle_body is_object uuid env_id now handler r none w =
      (w, write_error 400 (trace_of uuid r) "failed to read request body")
  handle_body is_object uuid env_id now handler r (some payload) w =
      if not (str_eq payload "")
      then (if is_object payload
          then call (trace_of uuid r) handler (envelope_of uuid env_id now r payload) w
          else (w, write_error 400 (trace_of uuid r) "invalid JSON body"))
      else call (trace_of uuid r) handler (envelope_of uuid env_id now r payload) w

  -- `ServeHTTP` on a request to `/api/v1/{action}`: `handleAction`.
  unfoldable pub handle_action :
      (is_object : String → Bool) (uuid env_id : String) (now : Time)
      → HttpRequest
      → Gateway W
      → W
      → W × HttpResponse
  unfolding handle_body
  handle_action is_object uuid env_id now r g w =
      if str_eq r.method "OPTIONS"
      then (w, record { status = 204; headers = cors; body = no_body })
      else (elim (g.routes r.action) [
        | none ↦ (w, write_error 404 (trace_of uuid r) (append "no handler for action: " r.action))
        | some handler ↦
            if not (str_eq r.method "POST")
            then (w, write_error 405 (trace_of uuid r) "method not allowed")
            else handle_body is_object uuid env_id now handler r r.body w
      ])
