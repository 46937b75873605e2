-- ===== src/Memory/Tdb/Answers.antt =====
-- internal/memory/tdb/provider.go: when a call succeeds, and what it then returns.
use hydra_db.Base.{
  Response, ℕ, String, ◌≡◌, ◌↔◌, ◌⊎◌, inl, inr, refl, sym, ap, subst, ◌∙◌, Option, none, some,
  Outcome, ok, err, ◌==◌, arith, Bool-cases, Option-cases,
}
use hydra_db.Memory.Tdb.{
  TdbError, request_failed, unread, undecodable, http_status, read_response, decoded, answer,
}

-- The service answered with a 200 whose body stands for `a`.
pub record Answered {A : Type 0} (unmarshal : String → Option A) (r : Option Response) (a : A)
    : Type 0 where
  pub raw : String
  pub status : r ≡ some (record { status = 200; body = some raw })
  pub decodes : unmarshal raw ≡ some a

pub err_ne_ok : {A : Type 0} {a : A} {e : TdbError} → err e ≡ ok a → ⊥
err_ne_ok h = cc h

abbrev OkIs : {A : Type 0} → A → A → Type 0
OkIs {A} a b = ◌≡◌ {A = Outcome TdbError A} (ok a) (ok b)

ok_inj : {A : Type 0} {a b : A} → OkIs a b → a ≡ b
ok_inj h = cc h

module _ {A : Type 0} (path : String) (unmarshal : String → Option A) where
  decoded_cases :
      (status : ℕ) (raw : String)
      → ((e : TdbError) × (decoded path unmarshal (status, raw) ≡ err e))
        ⊎ ((a : A) × (decoded path unmarshal (status, raw) ≡ ok a)
            × (status ≡ 200)
            × (unmarshal raw ≡ some a))
  unfolding decoded
  decoded_cases status raw = elim (Bool-cases (status == 200)) [
    | inr other ↦ inl (http_status path status, rw (decoded, other) refl)
    | inl is_200 ↦ elim (Option-cases (unmarshal raw)) [
      | inl bad ↦ inl (undecodable path, rw (decoded, is_200, bad) refl)
      | inr (a, e) ↦ inr (a, rw (decoded, is_200, e) refl, ground arith, e)
    ]
  ]

  abbrev pub AnswerCases : Option Response → Type 0
  AnswerCases r =
      ((e : TdbError) × (answer path unmarshal r ≡ err e))
      ⊎ ((a : A) × (answer path unmarshal r ≡ ok a) × Answered unmarshal r a)

  answer_at :
      (status : ℕ) (body : Option String)
      → AnswerCases (some (record { status = status; body = body }))
  unfolding answer read_response
  answer_at status none = inl (unread path, refl)
  answer_at status (some raw) = elim (decoded_cases status raw) [
    | inl (e, failed) ↦ inl (e, failed)
    | inr (a, works, is_200, decodes) ↦ inr (
      a,
      works,
      record {
        raw = raw;
        status = ap (λ n. some (record { status = n; body = some raw })) is_200;
        decodes = decodes;
      },
    )
  ]

  pub answer_cases : (r : Option Response) → AnswerCases r
  unfolding answer read_response
  answer_cases none = inl (request_failed path, refl)
  answer_cases (some r) = answer_at r.status r.body

  pub answer-Answered :
      (r : Option Response) (a : A) → Answered unmarshal r a → answer path unmarshal r ≡ ok a
  unfolding answer read_response decoded
  answer-Answered r a h = ap (answer path unmarshal) h.status ∙ rw (h.decodes) refl

  pub answer_iff :
      (r : Option Response) (a : A) → (answer path unmarshal r ≡ ok a) ↔ Answered unmarshal r a
  answer_iff r a = (
    λ h. elim (answer_cases r) [
      | inl (e, failed) ↦ absurd (err_ne_ok (sym failed ∙ h))
      | inr (b, works, answered) ↦ subst (Answered unmarshal r) (ok_inj (sym works ∙ h)) answered
    ],
    answer-Answered r a,
  )
