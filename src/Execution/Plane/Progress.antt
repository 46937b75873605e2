-- ===== src/Execution/Plane/Progress.antt =====
-- internal/execution/plane.go: how a job in the queue comes to be handled.
use mathlib.Core.List.{append-nil, append_assoc}
use hydra_db.Base.{
  ℕ, suc, ◌+◌, ◌≡◌, refl, sym, ap, subst, ◌∙◌, ◌⊎◌, inl, inr, List, [], ◌∷◌, ◌++◌, length, Time,
  arith, Bool-cases,
}
use hydra_db.Execution.Job.{Ref, Heap}
use hydra_db.Execution.Queue.{InMemoryQueue, enqueue, dequeue, close}
use hydra_db.Execution.Queue.Laws.{enqueue_cases, in_memory}
use hydra_db.Execution.Scheduler.{Scheduler, is_due, schedule}
use hydra_db.Execution.Plane.{
  Plane, handling, schedule_job, poll, settle, reschedule, close_queue, register, set_handler,
}
use hydra_db.Execution.Plane.Steps.{
  Step, registers, schedules, takes_due, hands_over, polls, settles, reschedules, sets_handler,
  closes,
}

abbrev pub queued : Plane → List Ref
queued p = p.scheduler.queue.ch

abbrev pub polls_in : {p q : Plane} → Step p q → ℕ
polls_in (polls now p e) = 1
polls_in _ = 0

-- What steps lead to, in which the loop polls `n` times.
pub data Polled (p : Plane) : ℕ → Plane → Type 0 where
  not_yet : Polled p 0 p
  onward : {n : ℕ} {q q' : Plane} → Polled p n q → (s : Step q q') → Polled p (n + polls_in s) q'

-- `ys` is `xs` with some jobs behind it.
abbrev Longer : (xs ys : List Ref) → Type 0
Longer xs ys = (more : List Ref) × (ys ≡ xs ++ more)

same_length : {xs ys : List Ref} → ys ≡ xs → Longer xs ys
same_length {xs} e = ([], e ∙ sym (append-nil xs))

enqueue-Longer : (job : Ref) (q : InMemoryQueue) → Longer q.ch (enqueue job q).0.ch
enqueue-Longer job q = elim (enqueue_cases job q) [
  | inl (_, e) ↦ same_length (ap (λ x. x.0.ch) e)
  | inr (inl (_, _, e)) ↦ (job ∷ [], ap (λ x. x.0.ch) e)
  | inr (inr (_, _, e)) ↦ same_length (ap (λ x. x.0.ch) e)
]

schedule-Longer :
    (heap : Heap) (now : Time) (job : Ref) (s : Scheduler InMemoryQueue)
    → Longer s.queue.ch (schedule in_memory heap now job s).0.queue.ch
unfolding schedule
schedule-Longer heap now job s = elim (Bool-cases (is_due heap now job)) [
  | inl due ↦ rw (due, schedule) (enqueue-Longer job s.queue)
  | inr waits ↦ rw (waits, schedule) (same_length refl)
]

close-Longer : (q : InMemoryQueue) → Longer q.ch (close q).ch
unfolding close
close-Longer q = same_length (ground arith)

-- A step that is no poll takes nothing out of the queue.
abbrev Kind : {p q : Plane} → Step p q → Type 0
Kind {p} {q} s =
    ((polls_in s ≡ 0) × Longer (queued p) (queued q))
    ⊎ ((polls_in s ≡ 1) × ((now : Time) × (q ≡ poll now p)))

kind : {p q : Plane} (s : Step p q) → Kind s
unfolding schedule_job settle reschedule close_queue register set_handler
kind (registers job p _ _) = inl (refl, same_length refl)
kind (schedules now job before after p _) = inl (refl, schedule-Longer p.heap now job p.scheduler)
kind (takes_due now p _) = inl (refl, same_length refl)
kind (hands_over job rest p _) = inl (refl, enqueue-Longer job p.scheduler.queue)
kind (polls now p _) = inr (refl, (now, refl))
kind (settles now later handler job p _) = inl (refl, same_length refl)
kind (reschedules now job p _) = inl (refl, schedule-Longer p.heap now job p.scheduler)
kind (sets_handler handler p _) = inl (refl, same_length refl)
kind (closes p) = inl (refl, close-Longer p.scheduler.queue)

received :
    (now : Time) (p : Plane) (x : Ref) (xs : List Ref)
    → queued p ≡ x ∷ xs
    → (queued (poll now p) ≡ xs) × ((poll now p).phase ≡ handling p.handler x)
unfolding poll dequeue
received now p x xs e = (rw (e, poll) refl, rw (e, poll) refl)

-- Where a job stands after a step: the jobs ahead of it are `ahead`.
abbrev Stands : Ref → (place : ℕ) → Plane → Type 0
Stands r place p =
    (ahead : List Ref) × (behind : List Ref) × (queued p ≡ ahead ++ r ∷ behind)
    × (length ahead ≡ place)

pushed :
    (p q : Plane) (r : Ref) (place : ℕ)
    → Longer (queued p) (queued q)
    → Stands r place p
    → Stands r place q
pushed p q r place (more, e) (ahead, behind, at, len) =
    (ahead, behind ++ more, e ∙ ap (λ l. l ++ more) at ∙ append_assoc ahead (r ∷ behind) more, len)

taken :
    (now : Time) (p : Plane) (r : Ref) (place : ℕ)
    → Stands r (suc place) p
    → Stands r place (poll now p)
taken now p r place ([], behind, at, len) = absurd (omega (arith, len))
taken now p r place (x ∷ ahead, behind, at, len) =
    (ahead, behind, (received now p x (ahead ++ r ∷ behind) at).0, omega (arith, len))

first :
    (now : Time) (q : Plane) (r : Ref)
    → Stands r 0 q
    → ((later : List Ref) × (queued q ≡ r ∷ later)) × ((poll now q).phase ≡ handling q.handler r)
first now q r ([], behind, at, len) = ((behind, at), (received now q r behind at).1)
first now q r (x ∷ ahead, behind, at, len) = absurd (omega (arith, len))

moves :
    {p q : Plane} (s : Step p q) (r : Ref) (place : ℕ)
    → Stands r (place + polls_in s) p
    → Stands r place q
moves {p} {q} s r place st = elim (kind s) [
  | inl (none_taken, longer) ↦
      pushed p q r place longer (subst (λ n. Stands r n p) (omega (arith, none_taken)) st)
  | inr (one_taken, (now, e)) ↦
      subst (Stands r place) (sym e)
        (taken now p r place (subst (λ n. Stands r n p) (omega (arith, one_taken)) st))
]

stands :
    {p q : Plane} {n : ℕ} (r : Ref) (place : ℕ)
    → Polled p n q
    → Stands r (place + n) p
    → Stands r place q
stands {p} r place not_yet st = subst (λ n. Stands r n p) (omega arith) st
stands {p} r place (onward {n} trace s) st =
    moves s r place
      (stands r (place + polls_in s) trace (subst (λ k. Stands r k p) (omega arith) st))

-- Whatever steps are made, of the loop, of flushes, of submissions and of `Stop`: when the loop has
-- polled as often as there are jobs ahead of a job in the queue, that job is the first, and the next
-- poll hands it to the handler that is then set.
pub taken_up :
    (p q : Plane) (r : Ref) (ahead behind : List Ref) (now : Time)
    → queued p ≡ ahead ++ r ∷ behind
    → Polled p (length ahead) q
    → ((later : List Ref) × (queued q ≡ r ∷ later)) × ((poll now q).phase ≡ handling q.handler r)
taken_up p q r ahead behind now at trace =
    first now q r (stands r 0 trace (ahead, behind, at, omega arith))
