-- ===== src/Body/Config/Laws.antt =====
-- internal/body/config.go: what a valid configuration is.
use hydra_db.Base.{String, ◌≡◌, ◌⊎◌, ◌↔◌, refl, true, none, arith, pos, ◌≤ℤ◌, eq_iff}
use hydra_db.Body.Config.{Config, is_log_level, is_format, validate, default_config}

abbrev pub IsLevel : String → Type 0
IsLevel s = (s ≡ "debug") ⊎ (s ≡ "info") ⊎ (s ≡ "warn") ⊎ (s ≡ "error")

abbrev pub IsFormat : String → Type 0
IsFormat s = (s ≡ "json") ⊎ (s ≡ "text") ⊎ (s ≡ "console")

is_log_level_iff : (s : String) → (is_log_level s ≡ true) ↔ IsLevel s
unfolding is_log_level
is_log_level_iff s = (
  λ h. ground (arith, eq_iff "debug" s, eq_iff "info" s, eq_iff "warn" s, eq_iff "error" s),
  λ h. ground (arith, eq_iff "debug" s, eq_iff "info" s, eq_iff "warn" s, eq_iff "error" s),
)

is_format_iff : (s : String) → (is_format s ≡ true) ↔ IsFormat s
unfolding is_format
is_format_iff s = (
  λ h. ground (arith, eq_iff "json" s, eq_iff "text" s, eq_iff "console" s),
  λ h. ground (arith, eq_iff "json" s, eq_iff "text" s, eq_iff "console" s),
)

pub record IsValid (c : Config) : Type 0 where
  pub port : (pos 1 ≤ℤ c.gateway.port) × (c.gateway.port ≤ℤ pos 65535)
  pub log_level : IsLevel c.hydra.log_level
  pub logging_level : IsLevel c.logging.level
  pub format : IsFormat c.logging.format
  pub read_timeout : pos 0 ≤ℤ c.gateway.read_timeout
  pub write_timeout : pos 0 ≤ℤ c.gateway.write_timeout
  pub default_budget : pos 0 ≤ℤ c.policy.default_budget
  pub rate_limit : pos 0 ≤ℤ c.policy.rate_limit

-- `Validate` returns nil exactly for the configurations whose port, levels, format, timeouts, budget
-- and rate limit are legal.
pub validate_iff : (c : Config) → (validate c ≡ none) ↔ IsValid c
unfolding validate
validate_iff c = (
  λ h. record {
    port = ground arith;
    log_level = (is_log_level_iff c.hydra.log_level).0 (ground arith);
    logging_level = (is_log_level_iff c.logging.level).0 (ground arith);
    format = (is_format_iff c.logging.format).0 (ground arith);
    read_timeout = ground arith;
    write_timeout = ground arith;
    default_budget = ground arith;
    rate_limit = ground arith;
  },
  λ h.
      let level : is_log_level c.hydra.log_level ≡ true =
        (is_log_level_iff c.hydra.log_level).1 h.log_level in
      let logging : is_log_level c.logging.level ≡ true =
        (is_log_level_iff c.logging.level).1 h.logging_level in
      let format : is_format c.logging.format ≡ true =
        (is_format_iff c.logging.format).1 h.format in
      rw (level, logging, format, validate)
        (ground (arith, h.port, h.read_timeout, h.write_timeout, h.default_budget, h.rate_limit)),
)

default_valid : validate default_config ≡ none
unfolding validate default_config is_log_level is_format
default_valid = refl
