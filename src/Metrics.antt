-- ===== src/Metrics.antt =====
-- src/metrics.rs: the exporter of the metrics over HTTP. The registry and its text encoder are
-- third-party code: what `render` gives is an argument of the response.
pub mod Families
pub mod Utf8
pub mod Request
pub mod Response
pub mod Handler
pub mod Exporter
pub mod Requests
mod Tests
