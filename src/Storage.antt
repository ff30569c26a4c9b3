-- ===== src/Storage.antt =====
-- internal/storage: polls, samples, app runs and events in SQLite, and the series read from them.
pub mod Types
pub mod Series
pub mod Grouping
pub mod Downsample
pub mod PublicMetrics
pub mod DashboardCpu
pub mod DashboardPolls
pub mod SeriesRows
pub mod SeriesQuery
pub mod Db
pub mod Targets
pub mod Write
pub mod Query
pub mod Retention
pub mod Integrity
