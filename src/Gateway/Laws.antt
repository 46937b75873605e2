-- ===== src/Gateway/Laws.antt =====
-- internal/gateway/gateway.go: which requests reach a handler, and what the others get.
use hydra_db.Base.{
  [], if◌then◌else◌, empty, put, ℕ, String, ◌≡◌, ◌≢◌, refl, ◌⊎◌, inl, inr, Bool, true, false,
  Option, none, some, ok, arith, str_eq, eq_iff, Time, Option-cases,
}
use hydra_db.Body.Envelope.{request}
use hydra_db.Gateway.{
  Answer, answers, HttpRequest, HandlerFunc, Gateway, envelope_of, handle_action,
}

-- The status by what the handler did.
abbrev pub status_of : Answer → ℕ
status_of (answers (ok resp)) = 200
status_of _ = 500

-- The body can be read, and is empty or an object in JSON.
abbrev pub Sound : (is_object : String → Bool) → Option String → Type 0
Sound is_object none = ⊥
Sound is_object (some payload) = (payload ≡ "") ⊎ (is_object payload ≡ true)

post_alone : (method : String) → method ≡ "POST" → str_eq method "OPTIONS" ≡ false
post_alone method e = rw e refl

module _ {W : Type 0} (is_object : String → Bool) (uuid env_id : String) (now : Time) where
  -- A registered handler runs on a `POST` whose body is empty or a JSON object, once, on an envelope
  -- with that body as its payload, the action, the trace of the request's header or else a new one, the
  -- authorization of the request in the metadata, and no actor or tenant; the status is 200 if it returns an envelope, which may be nil,
  -- and 500 if it returns an error or panics.
  pub handled :
      (r : HttpRequest) (payload : String) (handler : HandlerFunc W) (g : Gateway W) (w : W)
      → r.method ≡ "POST"
      → g.routes r.action ≡ some handler
      → r.body ≡ some payload
      → (payload ≡ "") ⊎ (is_object payload ≡ true)
      → let (w', res) = handle_action is_object uuid env_id now r g w in
        let (w1, answer) =
          handler
            (record {
              id = env_id;
              trace_id = if str_eq r.trace_header "" then uuid else r.trace_header;
              actor = record { id = ""; kind = ""; roles = []; tenant_id = "" };
              tenant = record { id = ""; name = "" };
              type = request;
              action = r.action;
              payload = payload;
              metadata =
                  if str_eq r.authorization ""
                  then empty
                  else put "authorization" r.authorization empty;
              timestamp = now;
            })
            w in
        (w' ≡ w1) × (res.status ≡ status_of answer)
  unfolding handle_action envelope_of
  handled r payload handler g w post route body sound =
      ground (arith, eq_iff r.method "POST", post_alone r.method post, eq_iff payload "")

  -- A request that is no `POST`, whose action has no handler, or whose body cannot be read or is
  -- neither empty nor a JSON object, runs no handler and changes nothing: it gets 204 if its
  -- method is OPTIONS, else 404 if its action has no handler, else 405 if it is no `POST`, and
  -- else 400.
  pub refused :
      (r : HttpRequest) (g : Gateway W) (w : W)
      → (r.method ≢ "POST") ⊎ (g.routes r.action ≡ none) ⊎ (¬ Sound is_object r.body)
      → let (w', res) = handle_action is_object uuid env_id now r g w in
        (w' ≡ w)
        × (((r.method ≡ "OPTIONS") × (res.status ≡ 204))
            ⊎ ((r.method ≢ "OPTIONS") × (g.routes r.action ≡ none) × (res.status ≡ 404))
            ⊎ ((r.method ≢ "OPTIONS")
                × (r.method ≢ "POST")
                × (g.routes r.action ≢ none)
                × (res.status ≡ 405))
            ⊎ ((r.method ≡ "POST")
                × (g.routes r.action ≢ none)
                × (¬ Sound is_object r.body)
                × (res.status ≡ 400)))
  unfolding handle_action
  refused r g w bad = elim (Option-cases r.body) [
    | inl unread ↦ ground (arith, eq_iff r.method "POST", eq_iff r.method "OPTIONS")
    | inr (payload, body) ↦
        ground (arith, eq_iff r.method "POST", eq_iff r.method "OPTIONS", eq_iff payload "")
  ]
