-- ===== src/Body/Registry.antt =====
-- internal/body/registry.go: the registered heads and their lifecycle. A head acts on the world `W`
-- that all heads share, and fails with an `E`. Loops over the map of heads take the order in which
-- `range` visits it.
pub mod Laws
use hydra_db.Base.{
  String, Bool, true, false, Option, none, some, List, [], ◌∷◌, ◌++◌, map, Outcome, ok, err, GoMap,
  empty, put,
}
use hydra_db.Body.Health.{HealthStatus, HealthReport, healthy, degraded, unhealthy}

module _ (W E : Type 0) where
  pub record Head : Type 0 where
    pub name : String
    pub start : W → W × Option E
    pub stop : W → W × Option E
    pub health : W → HealthReport

  abbrev pub Registry : Type 0
  Registry = GoMap Head

pub data RegistryError (E : Type 0) : Type 0 where
  head_registered : String → RegistryError E
  head_not_found : String → RegistryError E
  stop_errors : List E → RegistryError E

report_errors : {E : Type 0} → List E → Option (RegistryError E)
report_errors [] = none
report_errors (e ∷ es) = some (stop_errors (e ∷ es))

abbrev is_up : HealthStatus → Bool
is_up healthy = true
is_up _ = false

all_up : List HealthReport → Bool
all_up [] = true
all_up (r ∷ rs) = let rest = all_up rs in elim (is_up r.status) [ true ↦ rest | false ↦ false ]

module _ {W E : Type 0} where
  unfoldable pub new_registry : Registry W E
  new_registry = empty

  unfoldable pub register : Head W E → Registry W E → Registry W E × Option (RegistryError E)
  register head r = elim (r head.name) [
    | some old ↦ (r, some (head_registered head.name))
    | none ↦ (put head.name head r, none)
  ]

  unfoldable pub get : String → Registry W E → Outcome (RegistryError E) (Head W E)
  get name r = elim (r name) [ none ↦ err (head_not_found name) | some head ↦ ok head ]

  -- `List` and `Names`, for the order of the visit.
  abbrev pub list : List (String × Head W E) → List (Head W E)
  list order = map (λ (e : String × Head W E). e.1) order

  abbrev pub names : List (String × Head W E) → List String
  names order = map (λ (e : String × Head W E). e.0) order

  -- The second loop of `StartAll`.
  unfoldable pub start_heads : List (Head W E) → W → W × Option E
  start_heads [] w = (w, none)
  start_heads (h ∷ hs) w =
      let rest = start_heads hs (h.start w).0 in
      elim (h.start w).1 [ none ↦ rest | some e ↦ ((h.start w).0, some e) ]

  unfoldable pub start_all : List (String × Head W E) → W → W × Option E
  unfolding start_heads
  start_all order w = start_heads (list order) w

  -- The second loop of `StopAll`, with the errors collected so far.
  stop_heads : List E → List (Head W E) → W → W × List E
  stop_heads errs [] w = (w, errs)
  stop_heads errs (h ∷ hs) w =
      stop_heads (elim (h.stop w).1 [ none ↦ errs | some e ↦ errs ++ e ∷ [] ]) hs (h.stop w).0

  unfoldable pub stop_all : List (String × Head W E) → W → W × Option (RegistryError E)
  unfolding stop_heads report_errors
  stop_all order w = let (w', errs) = stop_heads [] (list order) w in (w', report_errors errs)

  unfoldable pub health_all : List (String × Head W E) → W → List HealthReport
  health_all order w = map (λ (h : Head W E). h.health w) (list order)

  unfoldable pub is_healthy : List (String × Head W E) → W → Bool
  unfolding all_up health_all
  is_healthy order w = all_up (health_all order w)
