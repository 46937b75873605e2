-- ===== src/Policy/Budgets.antt =====
-- internal/policy/engine.go: budgets.
use hydra_db.Base.{
  String, ◌+◌, ◌-◌, ◌≤◌, ◌<◌, ◌≡◌, ◌⊎◌, inl, inr, ◌∙◌, suc, ap, false, none, some, List, [], ◌∷◌,
  arith, ℤ, pos, negsuc, int64, sub_int, put, str_eq, eq_iff, if◌then◌else◌, ℕ, ◌^◌, Bool-cases,
}
use native.Mathlib.Decide.{dec_le}
use hydra_db.Policy.{BudgetEntry, Engine, insufficient_budget, consume_budget}

abbrev with_remaining : BudgetEntry → ℕ → BudgetEntry
with_remaining entry n = record entry { remaining = pos n }

deduct_exact :
    (have amount : ℕ)
    → have < 2 ^ 63
    → amount ≤ have
    → sub_int (pos have) (pos amount) ≡ pos (have - amount)
unfolding int64
deduct_exact have amount fits le = ground arith

-- A call of `ConsumeBudget` on an actor with a budget, for an amount that is not negative: either
-- the amount fits and is deducted, and nothing else changes, or the call fails and nothing changes.
pub consume_budget_cases :
    (actor : String) (have amount : ℕ) (e : Engine) (entry : BudgetEntry)
    → e.budgets actor ≡ some (with_remaining entry have)
    → have < 2 ^ 63
    → let (e', error) = consume_budget actor (pos amount) e in
      ((amount ≤ have)
        × (error ≡ none)
        × (e' ≡ record e { budgets = put actor (with_remaining entry (have - amount)) e.budgets }))
      ⊎ ((have < amount) × (error ≡ some (insufficient_budget (pos have) (pos amount))) × (e' ≡ e))
unfolding consume_budget
consume_budget_cases actor have amount e entry found fits = elim (dec_le amount have) [
  | yes le ↦ inl (le, ground arith, ground (arith, deduct_exact have amount fits le))
  | no gt ↦ inr (omega arith, ground arith, ground arith)
]

-- A negative amount is accepted and raises what remains, if the sum is below 2 ^ 63.
pub consume_budget_negative :
    (actor : String) (have k : ℕ) (e : Engine) (entry : BudgetEntry)
    → e.budgets actor ≡ some (with_remaining entry have)
    → have + suc k < 2 ^ 63
    → consume_budget actor (negsuc k) e
      ≡ (record e { budgets = put actor (with_remaining entry (have + suc k)) e.budgets }, none)
unfolding consume_budget int64
consume_budget_negative actor have k e entry found fits = ground arith

-- A request to spend, by some actor.
pub record Request : Type 0 where
  pub actor : String
  pub amount : ℕ

-- The requests are made one after the other. The second result is what `actor` was granted in all.
pub spend : String → List Request → Engine → Engine × ℕ
spend actor [] e = (e, 0)
spend actor (r ∷ rs) e =
    let (e', error) = consume_budget r.actor (pos r.amount) e in
    let (e'', total) = spend actor rs e' in
    (
      e'',
      total + (if str_eq r.actor actor then (elim error [ none ↦ r.amount | some x ↦ 0 ]) else 0),
    )

-- A request changes the budget of its own actor only.
consume_budget_ne :
    (actor other : String) (amount : ℤ) (e : Engine)
    → str_eq actor other ≡ false
    → (consume_budget actor amount e).0.budgets other ≡ e.budgets other
unfolding consume_budget
consume_budget_ne actor other amount e ne = ground arith

-- Whatever amounts, none negative, are requested by whatever actors, an actor's budget, below 2 ^
-- 63, is the sum of what it was granted and what remains.
pub spend-remaining :
    (actor : String) (rs : List Request) (e : Engine) (entry : BudgetEntry) (budget : ℕ)
    → e.budgets actor ≡ some (with_remaining entry budget)
    → budget < 2 ^ 63
    → let (e', granted) = spend actor rs e in
      (left : ℕ) × (e'.budgets actor ≡ some (with_remaining entry left)) × (granted + left ≡ budget)
unfolding spend
spend-remaining actor [] e entry budget found fits = (budget, found, omega arith)
spend-remaining actor (r ∷ rs) e entry budget found fits =
    elim (Bool-cases (str_eq r.actor actor)) [
      | inl same ↦
          elim (consume_budget_cases r.actor budget r.amount e entry
            (cc ((eq_iff r.actor actor).0 same)) fits) [
              | inl (le, accepted, after) ↦
                  let (left, found', total) =
                    spend-remaining actor rs (consume_budget r.actor (pos r.amount) e).0 entry
                      (budget - r.amount) (ap (λ (x : Engine). x.budgets actor) after ∙ rw same)
                      (omega arith) in
                  (left, found', ground arith)
              | inr (gt, refused, after) ↦
                  let (left, found', total) =
                    spend-remaining actor rs (consume_budget r.actor (pos r.amount) e).0 entry
                      budget (ap (λ (x : Engine). x.budgets actor) after ∙ found) fits in
                  (left, found', ground arith)
            ]
      | inr other ↦
          let (left, found', total) =
            spend-remaining actor rs (consume_budget r.actor (pos r.amount) e).0 entry budget
              (consume_budget_ne r.actor actor (pos r.amount) e other ∙ found) fits in
          (left, found', ground arith)
    ]
