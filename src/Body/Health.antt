-- ===== src/Body/Health.antt =====
-- internal/body/health.go
use hydra_db.Base.{String}

pub data HealthStatus : Type 0 where
  healthy degraded unhealthy : HealthStatus

pub record HealthReport : Type 0 where
  pub head : String
  pub status : HealthStatus
  pub detail : String
