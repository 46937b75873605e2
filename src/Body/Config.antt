-- ===== src/Body/Config.antt =====
-- internal/body/config.go: the configuration, its defaults, and the check that the start makes.
pub mod Laws
mod Load
use hydra_db.Base.{
  String, Bool, true, false, not, ◌||◌, Option, none, some, List, [], ◌∷◌, if◌then◌else◌, ℤ, pos,
  ltb_ℤ, str_mem,
}

pub record HydraConfig : Type 0 where
  pub name : String
  pub version : String
  pub log_level : String

pub record GatewayConfig : Type 0 where
  pub host : String
  pub port : ℤ
  pub read_timeout : ℤ
  pub write_timeout : ℤ

pub record MemoryConfig : Type 0 where
  pub provider : String
  pub tdb_url : String
  pub tdb_dir : String

pub record PolicyConfig : Type 0 where
  pub default_budget : ℤ
  pub rate_limit : ℤ

pub record LoggingConfig : Type 0 where
  pub level : String
  pub format : String

pub record Config : Type 0 where
  pub hydra : HydraConfig
  pub gateway : GatewayConfig
  pub memory : MemoryConfig
  pub policy : PolicyConfig
  pub logging : LoggingConfig

unfoldable pub default_config : Config
default_config = record {
  hydra = record { name = "hydra"; version = "0.1.0"; log_level = "info" };
  gateway = record {
    host = "localhost";
    port = pos 8080;
    read_timeout = pos 30;
    write_timeout = pos 30;
  };
  memory = record { provider = ""; tdb_url = ""; tdb_dir = "" };
  policy = record { default_budget = pos 10000; rate_limit = pos 100 };
  logging = record { level = "info"; format = "json" };
}

pub data ConfigError : Type 0 where
  invalid_port : ℤ → ConfigError
  invalid_log_level : String → ConfigError
  invalid_logging_level : String → ConfigError
  invalid_format : String → ConfigError
  negative_read_timeout negative_write_timeout : ConfigError
  negative_budget negative_rate_limit : ConfigError

-- validLogLevels[s] and validFormats[s]
pub is_log_level : String → Bool
is_log_level s = str_mem s ("debug" ∷ "info" ∷ "warn" ∷ "error" ∷ [])

pub is_format : String → Bool
is_format s = str_mem s ("json" ∷ "text" ∷ "console" ∷ [])

unfoldable pub validate : Config → Option ConfigError
validate c =
    if ltb_ℤ c.gateway.port (pos 1) || ltb_ℤ (pos 65535) c.gateway.port
    then some (invalid_port c.gateway.port)
    else if not (is_log_level c.hydra.log_level)
    then some (invalid_log_level c.hydra.log_level)
    else if not (is_log_level c.logging.level)
    then some (invalid_logging_level c.logging.level)
    else if not (is_format c.logging.format)
    then some (invalid_format c.logging.format)
    else if ltb_ℤ c.gateway.read_timeout (pos 0)
    then some negative_read_timeout
    else if ltb_ℤ c.gateway.write_timeout (pos 0)
    then some negative_write_timeout
    else if ltb_ℤ c.policy.default_budget (pos 0)
    then some negative_budget
    else if ltb_ℤ c.policy.rate_limit (pos 0)
    then some negative_rate_limit
    else none
