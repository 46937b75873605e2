-- ===== src/Execution/Graphs/Loops.antt =====
-- internal/execution/plane.go: the two loops of `SubmitDAG`.
use mathlib.Core.List.{append-nil, append_assoc}
use hydra_db.Base.{
  ◌+◌, ◌≤◌, ◌<◌, String, ◌≡◌, ◌≢◌, refl, sym, ap, ◌∙◌, inl, inr, ◌⊎◌, true, false, Option, none,
  some, List, [], ◌∷◌, ◌++◌, str_eq, eq_iff, arith, Memᴰ, Bool-cases, length, length-append, occurs,
  put, Time,
}
use hydra_db.Execution.Job.{Ref, Heap, ExecError, schedule_job as schedule_failed}
use hydra_db.Execution.Queue.{capacity, enqueue}
use hydra_db.Execution.Scheduler.{is_due, schedule}
use hydra_db.Execution.Plane.{Plane, schedule_job}
use hydra_db.Execution.Dag.{Dag}
use hydra_db.Execution.Graphs.{register_all, schedule_all}

-- The jobs of the identifiers.
abbrev pub jobs_of : Dag → List String → List Ref
jobs_of d [] = []
jobs_of d (id ∷ rest) = elim (d.nodes id) [
  | none ↦ jobs_of d rest
  | some job ↦ job ∷ jobs_of d rest
]

-- The jobs stand behind those in the queue.
abbrev pub queued : List Ref → Plane → Plane
queued jobs p = record p {
  scheduler = record p.scheduler {
    queue = record p.scheduler.queue { ch = p.scheduler.queue.ch ++ jobs };
  };
}

schedule_job_due :
    (now : Time) (job : Ref) (p : Plane)
    → is_due p.heap now job ≡ true
    → p.scheduler.queue.closed ≡ false
    → length p.scheduler.queue.ch < capacity
    → schedule_job now job p ≡ (queued (job ∷ []) p, none)
unfolding schedule_job schedule enqueue
schedule_job_due now job p due opened room = ground arith

queued_twice : (xs ys : List Ref) (p : Plane) → queued ys (queued xs p) ≡ queued (xs ++ ys) p
queued_twice xs ys p =
    ap
      (λ l. record p {
        scheduler = record p.scheduler { queue = record p.scheduler.queue { ch = l } };
      })
      (append_assoc p.scheduler.queue.ch xs ys)

queued_none : (p : Plane) → p ≡ queued [] p
queued_none p =
    ap
      (λ l. record p {
        scheduler = record p.scheduler { queue = record p.scheduler.queue { ch = l } };
      })
      (sym (append-nil p.scheduler.queue.ch))

module _ (d : Dag) (clock : String → Time) where
  -- The identifier is that of a job which need not wait.
  pub record Ready (heap : Heap) (id : String) : Type 0 where
    pub job : Ref
    pub known : d.nodes id ≡ some job
    pub due : is_due heap (clock id) job ≡ true

  schedule_all-cons :
      (id : String) (job : Ref) (rest : List String) (p : Plane)
      → d.nodes id ≡ some job
      → schedule_job (clock id) job p ≡ (queued (job ∷ []) p, none)
      → schedule_all d clock (id ∷ rest) p ≡ schedule_all d clock rest (queued (job ∷ []) p)
  unfolding schedule_all
  schedule_all-cons id job rest p known e =
      rw (known, schedule_all)
        (ap
          (λ (x : Plane × Option ExecError). elim x.1 as (λ o. Option (Plane × Option ExecError)) [
            | none ↦ schedule_all d clock rest x.0
            | some cause ↦ some (x.0, some (schedule_failed id cause))
          ])
          e)

  pub schedule_all_lem :
      (ids : List String) (p : Plane)
      → ((id : String) → Memᴰ id ids → Ready p.heap id)
      → p.scheduler.queue.closed ≡ false
      → length p.scheduler.queue.ch + length ids ≤ capacity
      → schedule_all d clock ids p ≡ some (queued (jobs_of d ids) p, none)
  unfolding schedule_all
  schedule_all_lem [] p ready opened room = ap (λ q. some (q, none)) (queued_none p)
  schedule_all_lem (id ∷ rest) p ready opened room =
      let r : Ready p.heap id = ready id (Memᴰ.head refl) in
      schedule_all-cons id r.job rest p r.known
        (schedule_job_due (clock id) r.job p r.due opened (omega arith))
      ∙ schedule_all_lem rest (queued (r.job ∷ []) p) (λ x m. ready x (Memᴰ.tail m)) opened
          (omega (arith, length-append p.scheduler.queue.ch (r.job ∷ [])))
      ∙ ap (λ q. some (q, none)) (queued_twice (r.job ∷ []) (jobs_of d rest) p)
      ∙ rw (r.known, jobs_of) refl

module _ (d : Dag) where
  -- A round of the first loop.
  put_job : (o : Option Ref) (id : String) → Plane → Plane
  put_job none id p = p
  put_job (some job) id p = record p { jobs = put id job p.jobs }

  register_all-cons :
      (id : String) (rest : List String) (p : Plane) (o : Option Ref)
      → d.nodes id ≡ o
      → register_all d (id ∷ rest) p ≡ register_all d rest (put_job o id p)
  unfolding register_all put_job
  register_all-cons id rest p none e = rw (e, register_all) refl
  register_all-cons id rest p (some job) e = rw (e, register_all) refl

  put_job_kept :
      (o : Option Ref) (id : String) (p : Plane)
      → ((put_job o id p).scheduler ≡ p.scheduler) × ((put_job o id p).heap ≡ p.heap)
  unfolding put_job
  put_job_kept none id p = (refl, refl)
  put_job_kept (some job) id p = (refl, refl)

  -- The first loop changes nothing but the map.
  pub register_all_kept :
      (ids : List String) (p : Plane)
      → ((register_all d ids p).scheduler ≡ p.scheduler) × ((register_all d ids p).heap ≡ p.heap)
  unfolding register_all
  register_all_kept [] p = (refl, refl)
  register_all_kept (id ∷ rest) p =
      let q : Plane = put_job (d.nodes id) id p in
      let (scheduler, heap) = register_all_kept rest q in
      let (scheduler', heap') = put_job_kept (d.nodes id) id p in
      let at_head : register_all d (id ∷ rest) p ≡ register_all d rest q =
        register_all-cons id rest p (d.nodes id) refl in
      (
        ap (λ (x : Plane). x.scheduler) at_head ∙ scheduler ∙ scheduler',
        ap (λ (x : Plane). x.heap) at_head ∙ heap ∙ heap',
      )

  put_job-jobs :
      (o : Option Ref) (id k : String) (p : Plane)
      → d.nodes id ≡ o
      → ((put_job o id p).jobs k ≡ p.jobs k) × (str_eq id k ≡ true → o ≡ none)
        ⊎ ((put_job o id p).jobs k ≡ d.nodes k) × (d.nodes k ≢ none)
  unfolding put_job
  put_job-jobs none id k p e = inl (refl, λ h. refl)
  put_job-jobs (some job) id k p e = elim (Bool-cases (str_eq id k)) [
    | inl same ↦ inr (
      rw same (sym e ∙ ap d.nodes ((eq_iff id k).0 same)),
      λ h. cc (e, h, ap d.nodes ((eq_iff id k).0 same)),
    )
    | inr other ↦ inl (rw other refl, λ h. cc (h, other))
  ]

  pub register_all_unknown :
      (ids : List String) (k : String) (p : Plane)
      → d.nodes k ≡ none
      → (register_all d ids p).jobs k ≡ p.jobs k
  unfolding register_all
  register_all_unknown [] k p e = refl
  register_all_unknown (id ∷ rest) k p e =
      ap (λ (x : Plane). x.jobs k) (register_all-cons id rest p (d.nodes id) refl)
      ∙ register_all_unknown rest k (put_job (d.nodes id) id p) e
      ∙ elim (put_job-jobs (d.nodes id) id k p refl) [
        | inl (same, _) ↦ same
        | inr (_, known) ↦ absurd (known e)
      ]

  pub register_all_known :
      (ids : List String) (k : String) (p : Plane)
      → d.nodes k ≢ none
      → (p.jobs k ≡ d.nodes k) ⊎ (0 < occurs k ids)
      → (register_all d ids p).jobs k ≡ d.nodes k
  unfolding register_all
  register_all_known [] k p known (inl e) = e
  register_all_known [] k p known (inr h) = absurd (omega arith)
  register_all_known (id ∷ rest) k p known h =
      ap (λ (x : Plane). x.jobs k) (register_all-cons id rest p (d.nodes id) refl)
      ∙ register_all_known rest k (put_job (d.nodes id) id p) known
          (elim (put_job-jobs (d.nodes id) id k p refl) [
            | inr (e, _) ↦ inl e
            | inl (e, other) ↦ elim h [
              | inl e' ↦ inl (e ∙ e')
              | inr more ↦ elim (Bool-cases (str_eq id k)) [
                | inl same ↦ absurd (known (ap d.nodes (sym ((eq_iff id k).0 same)) ∙ other same))
                | inr ne ↦ inr (ground arith)
              ]
            ]
          ])
