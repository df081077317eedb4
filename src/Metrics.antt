-- ===== src/Metrics.antt =====
-- internal/metrics: the registry's state and operations, and the rings it keeps.
pub mod Recent
pub mod Trail
pub mod Counters
pub mod Card
pub mod Hist
pub mod Ticks
pub mod Hub
