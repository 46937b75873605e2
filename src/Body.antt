-- ===== src/Body.antt =====
-- What the heads share (internal/body): health, the registry, the event bus, envelopes, spans and
-- the configuration.
pub mod Health
pub mod Registry
pub mod EventBus
pub mod Envelope
pub mod Trace
pub mod Config
mod Examples
