-- ===== src/Body/Envelope/Laws.antt =====
-- internal/body/envelope.go: payloads on the way through an envelope.
use hydra_db.Base.{
  String, ◌≡◌, ◌⊎◌, inl, inr, none, some, ok, err, eq_iff, str_eq, Bool-cases, Option-cases,
}
use hydra_db.Body.Envelope.{
  Envelope, Json, marshal_payload, with_payload, decode_payload, with_metadata,
}

module _ {A : Type 0} (json : Json A) where
  -- A value that can be marshalled is what decoding the envelope returns, also after metadata have
  -- been added; one that cannot is refused.
  pub decode-with_payload :
      (v : A) (key value : String) (e : Envelope)
      → ((e' : Envelope) × (with_payload json v e ≡ ok e')
          × (decode_payload json (with_metadata key value e') ≡ ok v))
        ⊎ ((json.marshal v ≡ none) × (with_payload json v e ≡ err marshal_payload))
  unfolding with_payload decode_payload with_metadata
  decode-with_payload v key value e = elim (Option-cases (json.marshal v)) [
    | inl failed ↦ inr (failed, rw (failed, with_payload))
    | inr (s, printed) ↦
        inl (record e { payload = s }, rw (printed, with_payload), read_back s printed)
  ]
    where
      read_back :
          (s : String)
          → json.marshal v ≡ some s
          → decode_payload json (with_metadata key value (record e { payload = s })) ≡ ok v
      read_back s printed = elim (Bool-cases (str_eq s "")) [
        | inl nothing ↦ absurd (json.not_empty v printed ((eq_iff s "").0 nothing))
        | inr something ↦ rw (something, json.reads_back v printed, decode_payload)
      ]
