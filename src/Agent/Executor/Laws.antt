-- ===== src/Agent/Executor/Laws.antt =====
-- internal/agent/executor.go: how an execution ends.
use hydra_db.Base.{
  sym, negsuc, ◌+ℤ◌, IsInt64, int64-IsInt64, ◌<◌, ◌^◌, true, ltb_ℤ, pos_part, add_int, ℕ, zero, suc,
  ◌+◌, ◌-◌, ◌≤◌, ◌≡◌, ◌≢◌, refl, ap, ◌∙◌, ◌⊎◌, inl, inr, Option, none, some, false, ok, err, arith,
  Option-cases, ℤ, pos, Time, leb_ℤ,
}
use hydra_db.Agent.Executor.Rounds.{answer_cases, attempts_left, attempts_from-attempts_left}
use hydra_db.Agent.Executor.{
  running, done, failed, timed_out, canceled, deadline_exceeded, ExecuteError, func_error,
  context_error, Agent, Round, Executor, interrupts, timed, attempts_from, execute,
}

module _ {C T R E : Type 0} (now : Time) (rounds : ℕ → Round C T R E) where
  -- From the attempt `i` on, `n` attempts end in an error and are to be made again; the first works
  -- on the agent `a`, and the last leaves the agent `a'` and its error `last'`.
  pub data Retried
      : (n i : ℕ) (a : Agent C T R E) (last : Option (ExecuteError E)) (a' : Agent C T R E)
          (last' : Option (ExecuteError E))
        → Type 0 where
    no_more :
        {i : ℕ} {a : Agent C T R E} {last : Option (ExecuteError E)} → Retried 0 i a last a last
    again :
        {n i : ℕ} {a a1 a' : Agent C T R E} {last last' : Option (ExecuteError E)} {e : E}
        → interrupts (pos i) (rounds i) ≡ none
        → (rounds i).run (record a { state = running }) ≡ (a1, err e)
        → (rounds i).ended ≡ canceled
        → Retried n (suc i) a1 (some (func_error e)) a' last'
        → Retried (suc n) i a last a' last'

  one_attempt :
      (n i : ℕ) (a a1 : Agent C T R E) (last : Option (ExecuteError E)) {e : E}
      → interrupts (pos i) (rounds i) ≡ none
      → (rounds i).run (record a { state = running }) ≡ (a1, err e)
      → (rounds i).ended ≡ canceled
      → attempts_left now rounds (suc n) i last a
        ≡ attempts_left now rounds n (suc i) (some (func_error e)) a1
  unfolding attempts_left
  one_attempt n i a a1 last {e = e} w r c =
      rw (w, attempts_left, ap (λ x. x.1) r, c)
        (ap (λ x. attempts_left now rounds n (suc i) (some (func_error e)) x.0) r)

  skip-Retried :
      (n m i : ℕ) (a a' : Agent C T R E) (last last' : Option (ExecuteError E))
      → Retried n i a last a' last'
      → attempts_left now rounds (n + m) i last a ≡ attempts_left now rounds m (i + n) last' a'
  skip-Retried n m i a a' last last' no_more =
      ap (λ k. attempts_left now rounds k i last a) (omega arith)
      ∙ ap (λ j. attempts_left now rounds m j last a) (omega arith)
  skip-Retried n m i a a' last last' (again {n = k} {a1 = a1} {e = e} w r c rest) =
      ap (λ l. attempts_left now rounds l i last a) (omega arith)
      ∙ one_attempt (k + m) i a a1 last w r c
      ∙ skip-Retried k m (suc i) a1 a' (some (func_error e)) last' rest
      ∙ ap (λ j. attempts_left now rounds m j last' a') (omega arith)

  skip_all :
      (fuel n m max : ℕ) (timeout : ℤ) (a a' : Agent C T R E) (last : Option (ExecuteError E))
      → n + m ≡ max + 1
      → max < 2 ^ 63 - 1
      → max + 1 < fuel
      → Retried n 0 a none a' last
      → execute fuel now rounds (record { max_retries = pos max; timeout = timeout }) a
        ≡ some (attempts_left now rounds m n last a')
  unfolding execute
  skip_all fuel n m max timeout a a' last sum small enough tried =
      attempts_from-attempts_left now rounds max small (max + 1) 0 fuel none a (omega arith) enough
      ∙ ap some (
          ap (λ k. attempts_left now rounds k 0 none a) (sym sum)
          ∙ skip-Retried n m 0 a a' none last tried
          ∙ ap (λ j. attempts_left now rounds m j last a') (omega arith))

  -- When `n` attempts fail, no more than `MaxRetries`, and the next succeeds, the agent is done with
  -- that attempt's result, and the execution returns no error.
  pub execute_success :
      (fuel n max : ℕ) (timeout : ℤ) (a a' a1 : Agent C T R E) (last : Option (ExecuteError E))
      (result : R)
      → n ≤ max
      → max < 2 ^ 63 - 1
      → max + 1 < fuel
      → Retried n 0 a none a' last
      → interrupts (pos n) (rounds n) ≡ none
      → (rounds n).run (record a' { state = running }) ≡ (a1, ok result)
      → execute fuel now rounds (record { max_retries = pos max; timeout = timeout }) a
        ≡ some
            (record a1 { state = done; result = some result; finished_at = (rounds n).clock }, none)
  unfolding attempts_left
  execute_success fuel n max timeout a a' a1 last result few small enough tried w r =
      skip_all fuel n (suc (max - n)) max timeout a a' last (ground arith) small enough tried
      ∙ ap some (
          rw (w, attempts_left, ap (λ x. x.1) r)
            (ap
              (λ x. (
                record x.0 { state = done; result = some result; finished_at = (rounds n).clock },
                none,
              ))
              r))

  -- When all `MaxRetries + 1` attempts fail, the agent has failed, and the last error is returned
  -- and is kept in the agent.
  pub execute_failure :
      (fuel max : ℕ) (timeout : ℤ) (a a' : Agent C T R E) (last : Option (ExecuteError E))
      → max < 2 ^ 63 - 1
      → max + 1 < fuel
      → Retried (suc max) 0 a none a' last
      → execute fuel now rounds (record { max_retries = pos max; timeout = timeout }) a
        ≡ some (record a' { state = failed; error = last; finished_at = now }, last)
  unfolding attempts_left
  execute_failure fuel max timeout a a' last small enough tried =
      skip_all fuel (suc max) 0 max timeout a a' last (omega arith) small enough tried

  -- When `n` attempts fail and the deadline of the next has passed as it fails, the agent is timed
  -- out, and no further attempt is made.
  pub execute_deadline :
      (fuel n max : ℕ) (timeout : ℤ) (a a' a1 : Agent C T R E) (last : Option (ExecuteError E))
      (e : E)
      → n ≤ max
      → max < 2 ^ 63 - 1
      → max + 1 < fuel
      → Retried n 0 a none a' last
      → interrupts (pos n) (rounds n) ≡ none
      → (rounds n).run (record a' { state = running }) ≡ (a1, err e)
      → (rounds n).ended ≡ deadline_exceeded
      → execute fuel now rounds (record { max_retries = pos max; timeout = timeout }) a
        ≡ some (
          record a1 { state = timed_out; finished_at = (rounds n).clock },
          some (context_error deadline_exceeded),
        )
  unfolding attempts_left
  execute_deadline fuel n max timeout a a' a1 last e few small enough tried w r d =
      skip_all fuel n (suc (max - n)) max timeout a a' last (ground arith) small enough tried
      ∙ ap some (
          rw (w, attempts_left, ap (λ x. x.1) r, d)
            (ap (λ x. timed (rounds n).clock deadline_exceeded x.0) r))

  attempts-state :
      (n i : ℕ) (last : Option (ExecuteError E)) (a : Agent C T R E)
      → let (a', e) = attempts_left now rounds n i last a in
        ((a'.state ≡ done) × (e ≡ none))
        ⊎ ((a'.state ≡ timed_out) × (e ≢ none))
        ⊎ ((a'.state ≡ failed) × (a'.error ≡ e) × ((e ≢ none) ⊎ (n ≡ 0) × (last ≡ none)))
  unfolding attempts_left
  attempts-state zero i last a = ground arith
  attempts-state (suc n) i last a = elim (Option-cases (interrupts (pos i) (rounds i))) [
    | inr (e, stop) ↦ ground arith
    | inl wait ↦ elim (answer_cases ((rounds i).run (record a { state = running })).1) [
      | inl (result, r) ↦ ground arith
      | inr (e, r) ↦ ground (
        arith,
        attempts-state n (suc i) (some (func_error e))
            ((rounds i).run (record a { state = running })).0,
      )
    ]
  ]

  ended :
      (fuel : ℕ) (max : ℤ) (a : Agent C T R E)
      → ltb_ℤ max (pos (2 ^ 63 - 1)) ≡ true
      → pos_part max + 1 < fuel
      → (n : ℕ) × (attempts_from now rounds max fuel (pos 0) 0 none a
          ≡ some (attempts_left now rounds n 0 none a))
        × ((n ≢ 0) ⊎ (leb_ℤ (pos 0) max ≡ false))
  unfolding attempts_from attempts_left
  ended fuel (pos m) a small enough = (
    m + 1,
    attempts_from-attempts_left now rounds m (ground arith) (m + 1) 0 fuel none a (omega arith)
        enough,
    inl (omega arith),
  )
  ended zero (negsuc m) a small enough = absurd (omega arith)
  ended (suc fuel) (negsuc m) a small enough =
      let none_made : leb_ℤ (pos 0) (negsuc m) ≡ false = ground arith in
      (0, rw (none_made, attempts_from) refl, inr none_made)

  -- With `MaxRetries` below the greatest `int`, an execution ends after at most `MaxRetries + 1`
  -- attempts, with the agent done, timed out or failed. It returns no error when the agent is done,
  -- an error when it is timed out, and when it has failed the error that the agent keeps, which is
  -- an error unless `MaxRetries` is negative.
  pub execute-state :
      (fuel : ℕ) (ex : Executor) (a : Agent C T R E)
      → ltb_ℤ ex.max_retries (pos (2 ^ 63 - 1)) ≡ true
      → pos_part ex.max_retries + 1 < fuel
      → (a' : Agent C T R E) × (e : Option (ExecuteError E)) × (execute fuel now rounds ex a
          ≡ some (a', e))
        × (((a'.state ≡ done) × (e ≡ none))
            ⊎ ((a'.state ≡ timed_out) × (e ≢ none))
            ⊎ ((a'.state ≡ failed)
                × (a'.error ≡ e)
                × ((e ≢ none) ⊎ (leb_ℤ (pos 0) ex.max_retries ≡ false))))
  unfolding execute
  execute-state fuel ex a small enough =
      let (n, run, tried) = ended fuel ex.max_retries a small enough in
      let (a', e) = attempts_left now rounds n 0 none a in
      (a', e, run, ground (arith, tried, attempts-state n 0 none a))

  endless :
      (fuel i : ℕ) (attempt : ℤ) (last : Option (ExecuteError E)) (a : Agent C T R E)
      → IsInt64 attempt
      → ((j : ℕ) → (rounds j).interrupted ≡ none)
      → ((j : ℕ) → (rounds j).ended ≡ canceled)
      → ((j : ℕ) (b : Agent C T R E) → (e : E) × ((rounds j).run b).1 ≡ err e)
      → attempts_from now rounds (pos (2 ^ 63 - 1)) fuel attempt i last a ≡ none
  unfolding attempts_from
  endless zero i attempt last a range calm going fails = refl
  endless (suc fuel) i attempt last a range calm going fails =
      let (e, r) = fails i (record a { state = running }) in
      let below : leb_ℤ attempt (pos (2 ^ 63 - 1)) ≡ true = ground (arith, range) in
      rw (below, attempts_from)
        (ground (
          arith,
          r,
          going i,
          calm i,
          endless fuel (suc i) (add_int attempt (pos 1)) (some (func_error e))
              ((rounds i).run (record a { state = running })).0 (int64-IsInt64 (attempt +ℤ pos 1))
              calm going fails,
        ))

  -- With the greatest `int` as `MaxRetries`, the execution of a function that always fails does not
  -- end, if neither the context nor the deadline of an attempt ends it: the counter wraps around.
  pub execute_endless :
      (fuel : ℕ) (timeout : ℤ) (a : Agent C T R E)
      → ((j : ℕ) → (rounds j).interrupted ≡ none)
      → ((j : ℕ) → (rounds j).ended ≡ canceled)
      → ((j : ℕ) (b : Agent C T R E) → (e : E) × ((rounds j).run b).1 ≡ err e)
      → execute fuel now rounds (record { max_retries = pos (2 ^ 63 - 1); timeout = timeout }) a
        ≡ none
  unfolding execute
  execute_endless fuel timeout a calm going fails =
      endless fuel 0 (pos 0) none a (omega arith, omega arith) calm going fails
