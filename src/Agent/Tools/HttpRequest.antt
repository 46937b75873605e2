-- ===== src/Agent/Tools/HttpRequest.antt =====
-- internal/agent/tools/http.go: the tool that makes a request over HTTP. The JSON and the HTTP client are
-- parameters; `H` is the type of the headers of a response. The headers of the input are visited in
-- the order in which they are listed.
use hydra_db.Base.{
  ℕ, String, ◌≡◌, refl, Bool, false, Option, none, some, List, [], ◌∷◌, Outcome, ok, err,
  if◌then◌else◌, str_eq, eq_iff, GoMap, empty, put, ℤ, pos, mul_int, eq_ℤ, any, arith, ◌∙◌,
}

-- `body` is `none` for a nil value.
pub record HttpRequestInput (B : Type 0) : Type 0 where
  pub url : String
  pub method : String
  pub headers : List (String × String)
  pub body : Option B
  pub timeout : ℤ

-- What is given to the HTTP client; the timeout is in nanoseconds.
pub record Outgoing : Type 0 where
  pub method : String
  pub url : String
  pub headers : GoMap String
  pub body : Option String
  pub timeout : ℤ

-- A response; `body` is `none` if reading it fails.
pub record Incoming (H : Type 0) : Type 0 where
  pub status : ℕ
  pub headers : H
  pub body : Option String

pub record HttpRequestOutput (H : Type 0) : Type 0 where
  pub status_code : ℕ
  pub headers : H
  pub body : String

pub data HttpRequestError : Type 0 where
  bad_input url_required bad_body bad_request request_failed unread bad_output : HttpRequestError

-- `canonical` is the spelling that `Header.Set` gives to a key.
unfoldable pub set_headers :
    (canonical : String → String) → List (String × String) → GoMap String → GoMap String
set_headers canonical [] m = m
set_headers canonical ((k, v) ∷ rest) m = set_headers canonical rest (put (canonical k) v m)

unfoldable pub timeout_of : ℤ → ℤ
timeout_of seconds =
    let d = mul_int seconds (pos 1000000000) in if eq_ℤ d (pos 0) then pos 30000000000 else d

module _ {B H S : Type 0} (unmarshal : String → Option (HttpRequestInput B))
    (marshal_body : B → Option String) (marshal : HttpRequestOutput H → Option String)
    (canonical : String → String) (accepts : (method url : String) → Bool)
    (client : Outgoing → S → S × Option (Incoming H)) where
  -- The bytes of the request: no reader for a nil value, and an error if it cannot be printed.
  unfoldable pub body_of : Option B → Outcome HttpRequestError (Option String)
  body_of none = ok none
  body_of (some b) = elim (marshal_body b) [ none ↦ err bad_body | some s ↦ ok (some s) ]

  unfoldable pub outgoing_of : HttpRequestInput B → (body : Option String) → Outgoing
  unfolding set_headers timeout_of
  outgoing_of input body = record {
    method = if str_eq input.method "" then "GET" else input.method;
    url = input.url;
    headers =
        set_headers canonical input.headers
          (put (canonical "Content-Type") "application/json" empty);
    body = body;
    timeout = timeout_of input.timeout;
  }

  unfoldable pub output_of : Option (Incoming H) → Outcome HttpRequestError String
  output_of none = err request_failed
  output_of (some r) = elim r.body [
    | none ↦ err unread
    | some raw ↦
        elim (marshal (record { status_code = r.status; headers = r.headers; body = raw })) [
          | none ↦ err bad_output
          | some out ↦ ok out
        ]
  ]

  -- `HTTPRequest.Execute`
  unfoldable pub http_request : (raw : String) → S → S × Outcome HttpRequestError String
  unfolding body_of outgoing_of output_of
  http_request raw s = elim (unmarshal raw) [
    | none ↦ (s, err bad_input)
    | some input ↦
        if str_eq input.url "" then (s, err url_required) else (elim (body_of input.body) [
          | err e ↦ (s, err e)
          | ok body ↦
              let out = outgoing_of input body in
              if accepts out.method out.url
              then (let (s', r) = client out s in (s', output_of r))
              else (s, err bad_request)
        ])
  ]

other_key : (b : Bool) (v : String) (o : Option String) → b ≡ false → (if b then some v else o) ≡ o
other_key b v o h = rw h refl

-- A key that no header names keeps what it has.
set_headers_kept :
    (canonical : String → String) (headers : List (String × String)) (m : GoMap String) (k : String)
    → any (λ e. str_eq (canonical e.0) k) headers ≡ false
    → set_headers canonical headers m k ≡ m k
unfolding set_headers
set_headers_kept canonical [] m k h = refl
set_headers_kept canonical ((j, v) ∷ rest) m k h =
    set_headers_kept canonical rest (put (canonical j) v m) k (ground (arith, h))
    ∙ other_key (str_eq (canonical j) k) v (m k) (ground (arith, h))

-- The content is declared as JSON unless a header of the input says otherwise.
pub declares_json :
    (canonical : String → String) (headers : List (String × String))
    → any (λ e. str_eq (canonical e.0) (canonical "Content-Type")) headers ≡ false
    → set_headers canonical headers
        (put (canonical "Content-Type") "application/json" empty)
        (canonical "Content-Type")
      ≡ some "application/json"
declares_json canonical headers h =
    set_headers_kept canonical headers _ (canonical "Content-Type") h
    ∙ ground (arith, eq_iff (canonical "Content-Type") (canonical "Content-Type"))
