-- ===== src/Adapter/Uniform.antt =====
-- internal/adapter: what the envelopes of all transports have in common.
use hydra_db.Base.{
  String, ◌≡◌, ◌≢◌, ◌⊎◌, inl, inr, refl, sym, subst, false, Option, none, some, List, [], Outcome,
  ok, err, str_eq, eq_iff, GoMap, Time, Memᴰ, true_ne_false, Bool-cases, Option-cases,
}
use hydra_db.Body.Envelope.{Envelope, request, new_envelope}
use hydra_db.Policy.{Engine, check_permission}
use hydra_db.Server.Laws.{refused_by}
use hydra_db.Adapter.{
  or_nil, AdapterError, action_required, bad_json, CliInput, HttpInput, SlackEvent, from_transport,
  copy_metadata, cli_envelope, http_envelope, slack_envelope, cli_to_envelope, http_to_envelope,
  slack_to_envelope,
}

no_role :
    (roles : List String)
    → roles ≡ []
    → (perm : String) (e : Engine) → check_permission roles perm e ≡ false
no_role roles none_named perm e =
    refused_by roles perm e (λ h. elim (subst (Memᴰ h.name) none_named h.named) [ ])

-- What an adapter is to make of an input: the action, the actor, the tenant and the payload.
pub record Parts : Type 0 where
  pub action : String
  pub actor : String
  pub tenant : String
  pub payload : String

-- A request with the given identifiers and parts, whose actor belongs to its tenant and has no
-- permission, whatever roles are registered; its metadata contain those of the transport.
pub record IsPlain (id trace : String) (metadata : Option (GoMap String)) (parts : Parts)
    (env : Envelope) : Type 0 where
  pub new_id : env.id ≡ id
  pub new_trace : env.trace_id ≡ trace
  pub is_request : env.type ≡ request
  pub action : env.action ≡ parts.action
  pub actor : env.actor.id ≡ parts.actor
  pub tenant : env.tenant.id ≡ parts.tenant
  pub payload : env.payload ≡ parts.payload
  pub own_tenant : env.actor.tenant_id ≡ parts.tenant
  pub powerless : (perm : String) (e : Engine) → check_permission env.actor.roles perm e ≡ false
  pub copied : (k : String) → (k ≡ "channel") ⊎ (env.metadata k ≡ copy_metadata metadata k)

-- A conversion fails, and then there is no input or a bad one; or it makes such a request, and then
-- the input was read and is not bad.
abbrev pub Converted :
    {I : Type 0} (id trace : String)
    → Option (GoMap String)
    → (read : Option I) (Bad : I → Type 0) (parts : I → Parts) → Outcome AdapterError Envelope
    → Type 0
Converted {I} id trace metadata read Bad parts result =
    ((e : AdapterError) × (result ≡ err e)
      × ((read ≡ none) ⊎ ((input : I) × (read ≡ some input) × Bad input)))
    ⊎ ((env : Envelope) × (input : I) × (result ≡ ok env)
        × (read ≡ some input)
        × (¬ Bad input)
        × IsPlain id trace metadata (parts input) env)

-- The parts for each of the transports.
abbrev pub cli_parts : (print : String → Option String) → CliInput → Parts
cli_parts print input = record {
  action = input.action;
  actor = input.actor_id;
  tenant = input.tenant_id;
  payload = or_nil (print input.input);
}

abbrev pub http_parts : (raw : String) → HttpInput → Parts
http_parts raw input = record {
  action = input.action;
  actor = input.actor_id;
  tenant = input.tenant_id;
  payload = raw;
}

abbrev pub slack_parts : (print : SlackEvent → Option String) → SlackEvent → Parts
slack_parts print event = record {
  action = "chat";
  actor = event.user;
  tenant = event.team_id;
  payload = or_nil (print event);
}

module _ (id trace : String) (now : Time) (raw : String) (metadata : Option (GoMap String)) where
  given : (action : String) → str_eq action "" ≡ false → action ≢ ""
  given action h e = true_ne_false ((eq_iff action "").1 e) h

  cli_cases :
      (unmarshal : String → Option CliInput) (print : String → Option String)
      → Converted id trace metadata
          (unmarshal raw)
          (λ input. input.action ≡ "")
          (cli_parts print)
          (cli_to_envelope id trace now unmarshal print raw metadata)
  unfolding cli_to_envelope from_transport new_envelope
  cli_cases unmarshal print = elim (Option-cases (unmarshal raw)) [
    | inl missing ↦ inl (bad_json, rw (missing, cli_to_envelope) refl, inl missing)
    | inr (input, e) ↦ elim (Bool-cases (str_eq input.action "")) [
      | inl no_action ↦ inl (
        action_required,
        rw (e, cli_to_envelope, no_action) refl,
        inr (input, e, (eq_iff input.action "").0 no_action),
      )
      | inr named ↦ inr (
        cli_envelope id trace now print metadata input,
        input,
        rw (e, cli_to_envelope, named) refl,
        e,
        given input.action named,
        record {
          new_id = refl;
          new_trace = refl;
          is_request = refl;
          action = refl;
          actor = refl;
          tenant = refl;
          payload = refl;
          own_tenant = refl;
          powerless = no_role [] refl;
          copied = λ k. inr refl;
        },
      )
    ]
  ]

  http_cases :
      (unmarshal : String → Option HttpInput)
      → Converted id trace metadata
          (unmarshal raw)
          (λ input. input.action ≡ "")
          (http_parts raw)
          (http_to_envelope id trace now unmarshal raw metadata)
  unfolding http_to_envelope from_transport new_envelope
  http_cases unmarshal = elim (Option-cases (unmarshal raw)) [
    | inl missing ↦ inl (bad_json, rw (missing, http_to_envelope) refl, inl missing)
    | inr (input, e) ↦ elim (Bool-cases (str_eq input.action "")) [
      | inl no_action ↦ inl (
        action_required,
        rw (e, http_to_envelope, no_action) refl,
        inr (input, e, (eq_iff input.action "").0 no_action),
      )
      | inr named ↦ inr (
        http_envelope id trace now raw metadata input,
        input,
        rw (e, http_to_envelope, named) refl,
        e,
        given input.action named,
        record {
          new_id = refl;
          new_trace = refl;
          is_request = refl;
          action = refl;
          actor = refl;
          tenant = refl;
          payload = refl;
          own_tenant = refl;
          powerless = no_role [] refl;
          copied = λ k. inr refl;
        },
      )
    ]
  ]

  slack_cases :
      (unmarshal : String → Option SlackEvent) (print : SlackEvent → Option String)
      → Converted id trace metadata
          (unmarshal raw)
          (λ event. ⊥)
          (slack_parts print)
          (slack_to_envelope id trace now unmarshal print raw metadata)
  unfolding slack_to_envelope from_transport new_envelope
  slack_cases unmarshal print = elim (Option-cases (unmarshal raw)) [
    | inl missing ↦ inl (bad_json, rw (missing, slack_to_envelope) refl, inl missing)
    | inr (event, e) ↦ inr (
      slack_envelope id trace now print metadata event,
      event,
      rw (e, slack_to_envelope) refl,
      e,
      λ bad. bad,
      record {
        new_id = refl;
        new_trace = refl;
        is_request = refl;
        action = refl;
        actor = refl;
        tenant = refl;
        payload = refl;
        own_tenant = refl;
        powerless = no_role [] refl;
        copied = λ k. elim (Bool-cases (str_eq "channel" k)) [
          | inl same ↦ inl (sym ((eq_iff "channel" k).0 same))
          | inr other ↦ inr (rw other refl)
        ];
      },
    )
  ]

  -- The adapters for the terminal and for HTTP fail exactly when the message cannot be read or names no
  -- action, and the one for Slack exactly when it cannot be read. Else they make a request with new
  -- identifiers, the action, the actor, the tenant and the payload of the message, and the metadata of
  -- the transport; its actor belongs to that tenant and is granted no permission, whatever roles are
  -- registered. The action of Slack is "chat", and the key `channel` may differ.
  pub converted :
      (read_cli : String → Option CliInput) (print_cli : String → Option String)
      (read_http : String → Option HttpInput) (read_slack : String → Option SlackEvent)
      (print_slack : SlackEvent → Option String)
      → Converted id trace metadata
          (read_cli raw)
          (λ input. input.action ≡ "")
          (cli_parts print_cli)
          (cli_to_envelope id trace now read_cli print_cli raw metadata)
        × Converted id trace metadata
            (read_http raw)
            (λ input. input.action ≡ "")
            (http_parts raw)
            (http_to_envelope id trace now read_http raw metadata)
        × Converted id trace metadata
            (read_slack raw)
            (λ event. ⊥)
            (slack_parts print_slack)
            (slack_to_envelope id trace now read_slack print_slack raw metadata)
  converted read_cli print_cli read_http read_slack print_slack =
      (cli_cases read_cli print_cli, http_cases read_http, slack_cases read_slack print_slack)
