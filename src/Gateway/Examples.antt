-- ===== src/Gateway/Examples.antt =====
-- internal/gateway/gateway.go: the theorems at concrete inputs.
use hydra_db.Base.{
  [], ℕ, ◌+◌, ◌≡◌, refl, inl, inr, String, Bool, true, some, put, empty, str_eq, ok, pos,
}
use hydra_db.Body.Envelope.{request}
use hydra_db.Gateway.{answers, HttpRequest, HandlerFunc, Gateway, handle_action}
use hydra_db.Gateway.Laws.{Sound, status_of, handled}

-- A handler that counts its calls and echoes the envelope.
abbrev echo : HandlerFunc ℕ
echo env w = (w + 1, answers (ok (some env)))

abbrev gateway : Gateway ℕ
gateway = record {
  cfg = record {
    host = "localhost";
    port = pos 8080;
    read_timeout = pos 30;
    write_timeout = pos 30;
  };
  routes = put "echo" echo empty;
  running = true;
}

abbrev post : HttpRequest
post = record {
  method = "POST";
  action = "echo";
  trace_header = "t1";
  authorization = "";
  body = some "{}";
}

abbrev is_braces : String → Bool
is_braces s = str_eq s "{}"

handled_example :
    let (w', res) = handle_action is_braces "u1" "u2" 9 post gateway 0 in
    let (w1, answer) =
      echo
        (record {
          id = "u2";
          trace_id = "t1";
          actor = record { id = ""; kind = ""; roles = []; tenant_id = "" };
          tenant = record { id = ""; name = "" };
          type = request;
          action = "echo";
          payload = "{}";
          metadata = empty;
          timestamp = 9;
        })
        0 in
    (w' ≡ w1) × (res.status ≡ status_of answer)
handled_example = handled is_braces "u1" "u2" 9 post "{}" echo gateway 0 refl refl refl (inr refl)

abbrev bad : HttpRequest
bad = record post { body = some "{" }

bad_body : ¬ Sound is_braces (some "{")
bad_body (inl e) = cc e
bad_body (inr e) = cc e
