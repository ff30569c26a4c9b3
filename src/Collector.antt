-- ===== src/Collector.antt =====
-- internal/collector: the normalized result of a collection and the adapters that produce it.
pub mod Model
pub mod Caddy
pub mod Dimensions
pub mod Micrometer
pub mod Quarkus
