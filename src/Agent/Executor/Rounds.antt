-- ===== src/Agent/Executor/Rounds.antt =====
-- internal/agent/executor.go: the loop of an execution as a number of attempts that are left.
use hydra_db.Base.{
  ◌<◌, ◌^◌, add_int, int64, ℕ, zero, suc, ◌+◌, ◌-◌, ◌≡◌, refl, ◌⊎◌, inl, inr, Option, none, some,
  Outcome, ok, err, arith, Option-cases, pos, Time,
}
use hydra_db.Agent.Executor.{
  running, done, failed, canceled, deadline_exceeded, ExecuteError, func_error, Agent, Round,
  interrupts, timed, attempts_from,
}

pub answer_cases :
    {R E : Type 0} (r : Outcome E R) → ((a : R) × (r ≡ ok a)) ⊎ ((e : E) × (r ≡ err e))
answer_cases (ok a) = inl (a, refl)
answer_cases (err e) = inr (e, refl)

module _ {C T R E : Type 0} (now : Time) (rounds : ℕ → Round C T R E) where
  -- The attempts from `i` on, when there are `n` more of them.
  unfoldable pub attempts_left :
      (n i : ℕ) → Option (ExecuteError E) → Agent C T R E → Agent C T R E × Option (ExecuteError E)
  attempts_left zero i last a = (record a { state = failed; error = last; finished_at = now }, last)
  attempts_left (suc n) i last a = elim (interrupts (pos i) (rounds i)) [
    | some e ↦ timed (rounds i).clock e a
    | none ↦
        let (a', r) = (rounds i).run (record a { state = running }) in
        elim r [
          | ok result ↦ (
            record a' { state = done; result = some result; finished_at = (rounds i).clock },
            none,
          )
          | err e ↦ elim (rounds i).ended [
            | deadline_exceeded ↦ timed (rounds i).clock deadline_exceeded a'
            | canceled ↦ attempts_left n (suc i) (some (func_error e)) a'
          ]
        ]
  ]

  next_attempt : (i : ℕ) → i < 2 ^ 63 - 1 → add_int (pos i) (pos 1) ≡ pos (suc i)
  unfolding int64
  next_attempt i h = ground arith

  -- Below the greatest `int` the counter does not wrap, and the loop makes the attempts that are left.
  pub attempts_from-attempts_left :
      (m : ℕ)
      → m < 2 ^ 63 - 1
      → (n i fuel : ℕ) (last : Option (ExecuteError E)) (a : Agent C T R E) → i + n ≡ m + 1
      → n < fuel
      → attempts_from now rounds (pos m) fuel (pos i) i last a ≡ some (attempts_left n i last a)
  unfolding attempts_from attempts_left
  attempts_from-attempts_left m small n i zero last a sum enough = absurd (omega arith)
  attempts_from-attempts_left m small zero i (suc fuel) last a sum enough = ground arith
  attempts_from-attempts_left m small (suc n) i (suc fuel) last a sum enough =
      elim (Option-cases (interrupts (pos i) (rounds i))) [
        | inr (e, stop) ↦ ground arith
        | inl wait ↦ elim (answer_cases ((rounds i).run (record a { state = running })).1) [
          | inl (result, r) ↦ ground arith
          | inr (e, r) ↦ ground (
            arith,
            next_attempt i (omega arith),
            attempts_from-attempts_left m small n (suc i) fuel (some (func_error e))
                ((rounds i).run (record a { state = running })).0 (omega arith) (omega arith),
          )
        ]
      ]
