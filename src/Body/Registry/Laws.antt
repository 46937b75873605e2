-- ===== src/Body/Registry/Laws.antt =====
-- internal/body/registry.go: what the registry promises of starting, stopping and health.
use mathlib.Core.List.{append-nil, append_assoc}
use hydra_db.Base.{
  Ranges, Memᴰ, String, ◌≡◌, ◌≢◌, ◌⊎◌, ◌↔◌, inl, inr, refl, ap, ◌∙◌, true, none, some, List, [],
  ◌∷◌, ◌++◌, map, ok, arith, eq_iff, str_eq, if◌then◌else◌, All, Option-cases,
}
use hydra_db.Body.Health.{healthy}
use hydra_db.Body.Registry.{
  Head, Registry, head_registered, stop_errors, register, get, list, start_heads, start_all,
  stop_heads, stop_all, report_errors, all_up, is_healthy,
}

report_cases :
    {E : Type 0} (errs : List E)
    → ((report_errors errs ≡ none) × (errs ≡ []))
      ⊎ ((report_errors errs ≡ some (stop_errors errs)) × (errs ≢ []))
unfolding report_errors
report_cases [] = inl (refl, refl)
report_cases (e ∷ es) = inr (refl, λ h. cc)

module _ {W E : Type 0} where
  -- A head registered under a free name is found under it, the other heads are as before, and a
  -- second head of that name is refused and changes nothing.
  pub register_lem :
      (head : Head W E) (r : Registry W E)
      → r head.name ≡ none
      → let (r', error) = register head r in
        (error ≡ none)
        × (get head.name r' ≡ ok head)
        × ((other : String) → r' other ≡ (if str_eq head.name other then some head else r other))
        × ((second : Head W E)
            → register (record second { name = head.name }) r'
              ≡ (r', some (head_registered head.name)))
  unfolding register get
  register_lem head r free = (
    ground arith,
    ground (arith, eq_iff head.name head.name),
    λ other. ground arith,
    λ second. ground (arith, eq_iff head.name head.name),
  )

  -- The worlds that the heads pass through when each starts without an error.
  pub data Started : List (Head W E) → W → W → Type 0 where
    none_left : {w : W} → Started [] w w
    started :
        {h : Head W E} {hs : List (Head W E)} {w w' : W}
        → (h.start w).1 ≡ none
        → Started hs (h.start w).0 w'
        → Started (h ∷ hs) w w'

  -- Where `StartAll` stopped: the heads before started, this one failed, and those behind it were
  -- not started.
  pub record Aborted (hs : List (Head W E)) (w w' : W) (e : E) : Type 0 where
    pub before : List (Head W E)
    pub failing : Head W E
    pub after : List (Head W E)
    pub split : hs ≡ before ++ failing ∷ after
    pub reached : W
    pub running : Started before w reached
    pub failed : failing.start reached ≡ (w', some e)

  Aborted-cons :
      {h : Head W E} {hs : List (Head W E)} {w w' : W} {e : E}
      → (h.start w).1 ≡ none
      → Aborted hs (h.start w).0 w' e
      → Aborted (h ∷ hs) w w' e
  Aborted-cons {h} fine a = record {
    before = h ∷ a.before;
    failing = a.failing;
    after = a.after;
    split = ap (λ l. h ∷ l) a.split;
    reached = a.reached;
    running = started fine a.running;
    failed = a.failed;
  }

  start_heads_cases :
      (hs : List (Head W E)) (w : W)
      → let (w', error) = start_heads hs w in
        ((error ≡ none) × Started hs w w') ⊎ ((e : E) × (error ≡ some e) × Aborted hs w w' e)
  unfolding start_heads
  start_heads_cases [] w = inl (refl, none_left)
  start_heads_cases (h ∷ hs) w = elim (Option-cases (h.start w).1) [
    | inl fine ↦
        rw (fine, start_heads)
          (elim (start_heads_cases hs (h.start w).0) [
            | inl (none_failed, all) ↦ inl (none_failed, started fine all)
            | inr (e, found, aborted) ↦ inr (e, found, Aborted-cons fine aborted)
          ])
    | inr (e, broken) ↦
        rw (broken, start_heads)
          (inr (
            e,
            refl,
            record {
              before = [];
              failing = h;
              after = hs;
              split = refl;
              reached = w;
              running = none_left;
              failed = λ i. ((h.start w).0, broken i);
            },
          ))
  ]

  in_run :
      {name : String} {h : Head W E} (order : List (String × Head W E))
      → Memᴰ (name, h) order
      → Memᴰ h (map (λ (e : String × Head W E). e.1) order)
  in_run [] m = elim m [ ]
  in_run (x ∷ xs) (Memᴰ.head e) = Memᴰ.head (ap (λ (y : String × Head W E). y.1) e)
  in_run (x ∷ xs) (Memᴰ.tail m) = Memᴰ.tail (in_run xs m)

  -- In whatever order `range` visits the map, each registered head is in the run of `StartAll`, which
  -- either starts every head of that run without an error, or returns the first error: the heads before
  -- the failing one have started, and those behind it have not been touched.
  pub start_all_cases :
      (r : Registry W E) (order : List (String × Head W E)) (w : W) {name : String} {h : Head W E}
      → Ranges r order
      → r name ≡ some h
      → let (w', error) = start_all order w in
        let run = map (λ (e : String × Head W E). e.1) order in
        Memᴰ h run
        × (((error ≡ none) × Started run w w') ⊎ ((e : E) × (error ≡ some e) × Aborted run w w' e))
  unfolding start_all
  start_all_cases r order w {name} {h} ranges registered =
      (in_run order (ranges.complete name h registered), start_heads_cases (list order) w)

  -- Every head stopped once, whatever each returns.
  abbrev pub stop_each : List (Head W E) → W → W
  stop_each [] w = w
  stop_each (h ∷ hs) w = stop_each hs (h.stop w).0

  -- The errors that the heads return, in turn.
  abbrev pub errors_of : List (Head W E) → W → List E
  errors_of [] w = []
  errors_of (h ∷ hs) w =
      let rest = errors_of hs (h.stop w).0 in elim (h.stop w).1 [ none ↦ rest | some e ↦ e ∷ rest ]

  stop_heads_lem :
      (errs : List E) (hs : List (Head W E)) (w : W)
      → stop_heads errs hs w ≡ (stop_each hs w, errs ++ errors_of hs w)
  unfolding stop_heads
  stop_heads_lem errs [] w = rw append-nil
  stop_heads_lem errs (h ∷ hs) w = elim (Option-cases (h.stop w).1) [
    | inl fine ↦ rw fine (stop_heads_lem errs hs (h.stop w).0)
    | inr (e, broken) ↦
        rw broken (stop_heads_lem (errs ++ e ∷ []) hs (h.stop w).0 ∙ rw append_assoc)
  ]

  -- `StopAll` stops every head whatever the others return, and returns all of their errors, in the
  -- order of the visit, or nil if there is none.
  pub stop_all_lem :
      (order : List (String × Head W E)) (w : W)
      → ((stop_all order w).0 ≡ stop_each (list order) w)
        × (((stop_all order w).1 ≡ none) × (errors_of (list order) w ≡ [])
            ⊎ ((stop_all order w).1 ≡ some (stop_errors (errors_of (list order) w)))
              × (errors_of (list order) w ≢ []))
  unfolding stop_all
  stop_all_lem order w =
      rw (stop_heads_lem [] (list order) w) (refl, report_cases (errors_of (list order) w))

  all_up_heads :
      (hs : List (Head W E)) (w : W)
      → (all_up (map (λ (h : Head W E). h.health w) hs) ≡ true)
        ↔ All (λ (h : Head W E). (h.health w).status ≡ healthy) hs
  unfolding all_up
  all_up_heads [] w = (λ h. tt, λ h. refl)
  all_up_heads (h ∷ hs) w =
      let (forth, back) = all_up_heads hs w in
      (λ up. (ground arith, forth (ground arith)), λ all. ground (arith, back all.1))

  -- The registry is healthy exactly when every registered head reports that it is.
  pub is_healthy_iff :
      (order : List (String × Head W E)) (w : W)
      → (is_healthy order w ≡ true)
        ↔ All (λ (h : Head W E). (h.health w).status ≡ healthy) (list order)
  unfolding is_healthy
  is_healthy_iff order w = all_up_heads (list order) w
