-- ===== src/Llm/Completed.antt =====
-- internal/llm/client.go: when `Complete` succeeds.
use Prim.Native.String.{◌++◌ as append}
use hydra_db.Base.{
  ℕ, String, ◌≡◌, ◌↔◌, inl, inr, refl, sym, ap, ◌∙◌, true, false, Option, none, some, ok, err, ◌==◌,
  str_eq, arith, eq_iff, Bool-cases, Option-cases, some_inj, Response, Client, post_request,
}
use hydra_db.Llm.{
  CompleteRequest, CompleteResponse, LlmClient, LlmError, bad_url, marshal_failed, LlmWire,
  accepted, complete_result, complete,
}

err_ne_ok : {e : LlmError} {r : CompleteResponse} → err e ≡ ok r → ⊥
err_ne_ok h = cc h

accepted_iff :
    (o : Option CompleteResponse) (r : CompleteResponse)
    → (accepted o ≡ ok r) ↔ ((o ≡ some r) × (r.error ≡ ""))
unfolding accepted
accepted_iff none r = (λ h. absurd (err_ne_ok h), λ x. cc x.0)
accepted_iff (some a) r = elim (Bool-cases (str_eq a.error "")) [
  | inl no_error ↦ (
    λ h.
        let same : a ≡ r = cc (rw (accepted, no_error) at h) in
        (ap some same, ap (λ x. x.error) (sym same) ∙ (eq_iff a.error "").0 no_error),
    λ x. rw (accepted, no_error) (cc x.0),
  )
  | inr failed ↦ (
    λ h. absurd (err_ne_ok (rw (accepted, failed) at h)),
    λ x. absurd (cc ((eq_iff a.error "").1 (ap (λ y. y.error) (some_inj x.0) ∙ x.1), failed)),
  )
]

module _ {F : Type 0} (wire : LlmWire F) where
  -- The sidecar answered with a 200 whose body stands for `r`, which reports no error.
  pub record Completed (o : Option Response) (r : CompleteResponse) : Type 0 where
    pub raw : String
    pub status : o ≡ some (record { status = 200; body = some raw })
    pub decodes : wire.unmarshal raw ≡ some r
    pub no_error : r.error ≡ ""

  at_status :
      (status : ℕ) (body : Option String) (r : CompleteResponse)
      → let o : Option Response = some (record { status = status; body = body }) in
        complete_result wire o ≡ ok r → Completed o r
  unfolding complete_result
  at_status status none r h = absurd (err_ne_ok h)
  at_status status (some raw) r h = elim (Bool-cases (status == 200)) [
    | inl is_200 ↦
        let (decodes, no_error) =
          (accepted_iff (wire.unmarshal raw) r).0 (rw (complete_result, is_200) at h) in
        record {
          raw = raw;
          status = ap (λ n. some (record { status = n; body = some raw })) (ground arith);
          decodes = decodes;
          no_error = no_error;
        }
    | inr other ↦ absurd (err_ne_ok (rw (complete_result, other) at h))
  ]

  completes :
      (o : Option Response) (r : CompleteResponse) → complete_result wire o ≡ ok r → Completed o r
  unfolding complete_result
  completes none r h = absurd (err_ne_ok h)
  completes (some a) r h = at_status a.status a.body r h

  completed :
      (o : Option Response) (r : CompleteResponse) → Completed o r → complete_result wire o ≡ ok r
  unfolding complete_result
  completed o r c =
      ap (complete_result wire) c.status
      ∙ (accepted_iff (wire.unmarshal c.raw) r).1 (c.decodes, c.no_error)

  module _ {S : Type 0} (client : Client S) (c : LlmClient) (req : CompleteRequest F) (s : S) where
    sent :
        (body : String)
        → wire.marshal req ≡ some body
        → wire.parses (append c.base_url "/complete") ≡ true
        → (complete wire client c req s).1
          ≡ complete_result wire (client (post_request (append c.base_url "/complete") body) s).1
    unfolding complete
    sent body e good = rw (e, complete, good) refl

    unsent : wire.marshal req ≡ none → (complete wire client c req s).1 ≡ err marshal_failed
    unfolding complete
    unsent e = rw (e, complete) refl

    bad :
        (body : String)
        → wire.marshal req ≡ some body
        → wire.parses (append c.base_url "/complete") ≡ false
        → (complete wire client c req s).1 ≡ err bad_url
    unfolding complete
    bad body e wrong = rw (e, complete, wrong) refl

    -- `Complete` returns a response exactly when the request can be marshalled, the URL is one, and the
    -- sidecar answers with a 200 whose body stands for that response and reports no error.
    pub complete_iff :
        (r : CompleteResponse)
        → ((complete wire client c req s).1 ≡ ok r) ↔ (
            (body : String) × (wire.marshal req ≡ some body)
            × (wire.parses (append c.base_url "/complete") ≡ true)
            × Completed (client (post_request (append c.base_url "/complete") body) s).1 r)
    complete_iff r = (
      λ h. elim (Option-cases (wire.marshal req)) [
        | inl missing ↦ absurd (err_ne_ok (sym (unsent missing) ∙ h))
        | inr (body, e) ↦ elim (Bool-cases (wire.parses (append c.base_url "/complete"))) [
          | inl good ↦ (body, e, good, completes _ r (sym (sent body e good) ∙ h))
          | inr wrong ↦ absurd (err_ne_ok (sym (bad body e wrong) ∙ h))
        ]
      ],
      λ x. let (body, e, good, done) = x in sent body e good ∙ completed _ r done,
    )
