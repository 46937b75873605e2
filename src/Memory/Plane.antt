-- ===== src/Memory/Plane.antt =====
-- internal/memory/plane.go: each operation is its provider's.
use hydra_db.Base.{String, Option, List, Outcome, Time}
use hydra_db.Body.Health.{HealthReport, healthy}
use hydra_db.Memory.Types.{Memory, SearchQuery, MemoryError, Provider}

module _ {F S : Type 0} (provider : Provider F S) where
  unfoldable pub store : Memory F → S → S × Option MemoryError
  store mem s = provider.write mem s

  recall : (now : Time) → String → S → S × Outcome MemoryError (Memory F)
  recall now id s = provider.read now id s

  unfoldable pub search : SearchQuery F → S → Outcome MemoryError (List (Memory F))
  search query s = provider.search query s

  forget : String → S → S × Option MemoryError
  forget id s = provider.delete id s

health : HealthReport
health = record { head = "memory"; status = healthy; detail = "" }
