-- ===== src/Execution/Plane/Steps.antt =====
-- internal/execution/plane.go: the interleavings of the processing loop, the scheduler's ticks and
-- the callers, as a step relation; and the invariant of all that it reaches.
use hydra_db.Base.{
  ℕ, ◌+◌, ◌≤◌, ◌<◌, ◌^◌, ◌≡◌, ◌⊎◌, List, [], ◌∷◌, ◌++◌, count, length, pos_part, neg_part, Time,
}
use hydra_db.Execution.Job.{Job, JobState, Ref, pending, running, completed, failed, retrying}
use hydra_db.Execution.Queue.{capacity, enqueue}
use hydra_db.Execution.Scheduler.{split_due}
use hydra_db.Execution.Plane.{
  Handler, Phase, polling, handling, rescheduling, Plane, register, schedule_job, set_handler, poll,
  settle, reschedule, close_queue,
}

-- A handler leaves alone the fields by which the plane steers a job.
pub record KeepsControl (h : Handler) : Type 0 where
  pub attempts : (j : Job) → (h j).0.attempts ≡ j.attempts
  pub max_attempts : (j : Job) → (h j).0.max_attempts ≡ j.max_attempts

abbrev pub phase_count : Ref → Phase → ℕ
phase_count r polling = 0
phase_count r (handling h job) = count r (job ∷ [])
phase_count r (rescheduling job) = count r (job ∷ [])

-- In how many places the plane holds a job that it has still to run or to finish.
abbrev pub waiting : Ref → Plane → ℕ
waiting r p =
    count r p.scheduler.queue.ch
    + count r p.scheduler.pending
    + count r p.ready
    + count r p.submitting

abbrev pub owned : Ref → Plane → ℕ
owned r p = waiting r p + phase_count r p.phase

-- The critical section of `flush`: what is due leaves `pending`.
abbrev pub take_due : Time → Plane → Plane
take_due now p =
    let (ready, remaining) = split_due p.heap now p.scheduler.pending in
    record p { ready = ready; scheduler = record p.scheduler { pending = remaining } }

-- One round of the second loop of `flush`.
abbrev pub hand_over : Ref → List Ref → Plane → Plane
hand_over job rest p = record p {
  ready = rest;
  scheduler = record p.scheduler { queue = (enqueue job p.scheduler.queue).0 };
}

-- The start of a call of `Submit`, and its end.
abbrev pub begin_submit : Ref → Plane → Plane
begin_submit job p = record (register job p) { submitting = job ∷ p.submitting }

abbrev pub end_submit : Time → Ref → List Ref → Plane → Plane
end_submit now job others p = record (schedule_job now job p).0 { submitting = others }

pub data Step : Plane → Plane → Type 0 where
  -- `Submit` of a new job, up to the call of the scheduler
  registers :
      (job : Ref) (p : Plane)
      → owned job p ≡ 0
      → (p.heap job).state ≡ pending
      → Step p (begin_submit job p)
  -- the rest of one of the calls of `Submit` under way
  schedules :
      (now : Time) (job : Ref) (before after : List Ref) (p : Plane)
      → p.submitting ≡ before ++ job ∷ after
      → Step p (end_submit now job (before ++ after) p)
  -- the critical section of `flush`
  takes_due : (now : Time) (p : Plane) → p.ready ≡ [] → Step p (take_due now p)
  -- one round of the second loop of `flush`
  hands_over :
      (job : Ref) (rest : List Ref) (p : Plane)
      → p.ready ≡ job ∷ rest
      → Step p (hand_over job rest p)
  polls : (now : Time) (p : Plane) → p.phase ≡ polling → Step p (poll now p)
  settles :
      (now later : Time) (h : Handler) (job : Ref) (p : Plane)
      → p.phase ≡ handling h job
      → Step p (settle now later h job p)
  reschedules :
      (now : Time) (job : Ref) (p : Plane)
      → p.phase ≡ rescheduling job
      → Step p (reschedule now job p)
  sets_handler : (h : Handler) (p : Plane) → KeepsControl h → Step p (set_handler h p)
  closes : (p : Plane) → Step p (close_queue p)

pub data Reach (p : Plane) : Plane → Type 0 where
  here : Reach p p
  next : {q q' : Plane} → Reach p q → Step q q' → Reach p q'

abbrev pub Steady : Phase → Type 0
Steady (handling h job) = KeepsControl h
Steady _ = Unit

-- What holds of one job, given how often it waits and whether the loop has it in hand.
abbrev pub handled : Ref → Phase → ℕ
handled r (handling h job) = count r (job ∷ [])
handled r _ = 0

abbrev pub to_retry : Ref → Phase → ℕ
to_retry r (rescheduling job) = count r (job ∷ [])
to_retry r _ = 0

abbrev pub StateFacts : JobState → (attempts max_attempts waits handles retries : ℕ) → Type 0
StateFacts pending a m w h t = (a ≡ 0) × (h ≡ 0) × (t ≡ 0)
StateFacts running a m w h t = (w ≡ 0) × (h ≡ 1) × (t ≡ 0)
StateFacts retrying a m w h t = (a < m) × (h ≡ 0)
StateFacts completed a m w h t = (w ≡ 0) × (h ≡ 0) × (t ≡ 0)
StateFacts failed a m w h t = (w ≡ 0) × (h ≡ 0) × (t ≡ 0)

pub record JobInv (j : Job) (waits handles retries : ℕ) : Type 0 where
  pub nonneg : neg_part j.attempts ≡ 0
  pub in_range : pos_part j.max_attempts < 2 ^ 63
  pub within : (pos_part j.attempts ≤ 1) ⊎ (pos_part j.attempts ≤ pos_part j.max_attempts)
  pub state_facts :
      StateFacts j.state (pos_part j.attempts) (pos_part j.max_attempts) waits handles retries
  pub once : waits + handles + retries ≤ 1

abbrev pub JobOk : Ref → Plane → Type 0
JobOk r p = JobInv (p.heap r) (waiting r p) (handled r p.phase) (to_retry r p.phase)

pub record Inv (p : Plane) : Type 0 where
  pub bounded : length p.scheduler.queue.ch ≤ capacity
  pub handler : KeepsControl p.handler
  pub phase : Steady p.phase
  pub each : (r : Ref) → JobOk r p
