-- ===== src/Llm.antt =====
-- internal/llm/client.go: the client of the sidecar that completes prompts. The JSON and the HTTP
-- client are parameters; `parses` says whether `http.NewRequestWithContext` accepts a URL.
pub mod Completed
mod Examples
use Prim.Native.String.{◌++◌ as append}
use hydra_db.Base.{
  ℕ, String, Bool, true, false, Option, none, some, List, [], ◌∷◌, Outcome, ok, err, if◌then◌else◌,
  ◌==◌, str_eq, ℤ, pos, Response, Request, Client, get_request, post_request,
}

-- `F` is float64.
pub record CompleteRequest (F : Type 0) : Type 0 where
  pub system_prompt : String
  pub user_message : String
  pub max_tokens : ℤ
  pub temperature : Option F
  pub model : String

pub record Usage : Type 0 where
  pub input_tokens : ℤ
  pub output_tokens : ℤ

pub record CompleteResponse : Type 0 where
  pub text : String
  pub usage : Usage
  pub error : String

-- The base URL, and the timeout in nanoseconds.
pub record LlmClient : Type 0 where
  pub base_url : String
  pub timeout : ℤ

abbrev pub ClientOption : Type 0
ClientOption = LlmClient → LlmClient

abbrev pub with_base_url : String → ClientOption
with_base_url url c = record c { base_url = url }

abbrev pub with_timeout : ℤ → ClientOption
with_timeout d c = record c { timeout = d }

abbrev pub apply_client_options : List ClientOption → ClientOption
apply_client_options [] c = c
apply_client_options (opt ∷ opts) c = apply_client_options opts (opt c)

unfoldable pub new_client : List ClientOption → LlmClient
new_client opts =
    apply_client_options opts
      (record { base_url = "http://localhost:3100"; timeout = pos 120000000000 })

pub data LlmError : Type 0 where
  marshal_failed bad_url unreachable unread undecodable : LlmError
  sidecar_error : String → LlmError
  http_status : ℕ → (body : String) → LlmError

module _ (F : Type 0) where
  -- `encoding/json` on the types above, `none` for an error; `error_field` reads the error of a failure.
  pub record LlmWire : Type 0 where
    pub marshal : CompleteRequest F → Option String
    pub unmarshal : String → Option CompleteResponse
    pub error_field : String → Option String
    pub parses : (url : String) → Bool

-- The error for a status other than 200.
unfoldable pub failure : (error_field : Option String) → (status : ℕ) (raw : String) → LlmError
failure none status raw = http_status status raw
failure (some e) status raw = if str_eq e "" then http_status status raw else sidecar_error e

-- What `Complete` makes of a body that came with a 200.
unfoldable pub accepted : Option CompleteResponse → Outcome LlmError CompleteResponse
accepted none = err undecodable
accepted (some r) = if str_eq r.error "" then ok r else err (sidecar_error r.error)

module _ {F : Type 0} (wire : LlmWire F) where
  -- The result of `Complete` for what its call of the HTTP client returns.
  unfoldable pub complete_result : Option Response → Outcome LlmError CompleteResponse
  unfolding failure accepted
  complete_result none = err unreachable
  complete_result (some r) = elim r.body [
    | none ↦ err unread
    | some raw ↦
        if r.status == 200
        then accepted (wire.unmarshal raw)
        else err (failure (wire.error_field raw) r.status raw)
  ]

  module _ {S : Type 0} (client : Client S) where
    unfoldable pub complete :
        LlmClient → CompleteRequest F → S → S × Outcome LlmError CompleteResponse
    unfolding complete_result
    complete c req s = elim (wire.marshal req) [
      | none ↦ (s, err marshal_failed)
      | some body ↦
          if wire.parses (append c.base_url "/complete")
          then (let (s', r) = client (post_request (append c.base_url "/complete") body) s in
              (s', complete_result r))
          else (s, err bad_url)
    ]

    -- `Health`, which does not look at the body.
    unfoldable pub health : LlmClient → S → S × Option LlmError
    health c s =
        if wire.parses (append c.base_url "/health")
        then (let (s', r) = client (get_request (append c.base_url "/health")) s in
            (
              s',
              elim r [
                | none ↦ some unreachable
                | some resp ↦ if resp.status == 200 then none else some (http_status resp.status "")
              ],
            ))
        else (s, some bad_url)
