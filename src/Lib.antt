-- ===== src/Lib.antt =====
-- A model of Statlite, a monitor that polls the metrics of web applications, keeps them in SQLite and
-- serves summaries of them.
--
-- The parts and how they interact. A configuration (internal/config) names the targets and is
-- validated before anything starts. A collector (internal/collector) asks an application for its
-- metrics and returns a CollectionResult. A Monitor (internal/monitor/monitor.go) calls its collector
-- at an interval, decides which run of the application the result belongs to, saves the result
-- through the Store (internal/storage/write.go), reads it back (internal/storage/query.go) and keeps a
-- Status. A Manager (internal/monitor/manager.go) holds the monitors of all targets and picks one for
-- a request. The store derives series of points from counters and gauges (internal/storage/series.go),
-- which are then aggregated for charts (downsample.go) and for the public API (public_metrics.go), and
-- deletes what is older than the retention (retention.go). The Caddy and Quarkus collectors read an
-- exposition with the parser of internal/prometheus.
--
-- Which file models what. Names are the source's, in snake case for functions and fields.
--   Prelude, Result    shared names, lists, texts and maps; a Go value or error.
--   Float              float64 as an interface: definitions hold for any arithmetic, and FloatLaws
--                      states the IEEE 754 facts that a theorem may take as a hypothesis.
--   Time               time.Time as nanoseconds since Go's zero time, so UTC() is the identity.
--   Bytes              a Go string as its bytes, with what the program uses of package strings there.
--   Prometheus.Labels, Prometheus.Samples, Prometheus.Exposition
--                      internal/prometheus/prometheus.go: label sets, sample lines, and Parse over a
--                      body with its reader's error.
--   Collector.Model    internal/collector/model.go.
--   Collector.Caddy    internal/collector/caddy.go: accept and totals; Collector.Caddy.Collect is Collect.
--   Collector.Dimensions, Collector.Micrometer
--                      internal/collector/micrometer.go: the fingerprints and their populations; and
--                      acceptCount, acceptDuration and addTo. Collector.Micrometer.Runtime is the
--                      runtime values.
--   Collector.Quarkus  internal/collector/quarkus.go: the labels and the health capability, with
--                      children for the warnings, evaluate and Collect.
--   Config             internal/config: the records of config.go; Config.Urls is validateTargetURL and
--                      internal/urlshape's ParseHTTP, Config.Caddy and Config.Targets the checks of a
--                      target, Config.Validate Validate and deprecated.go.
--   Storage.Types, Storage.Series, Storage.Downsample, Storage.PublicMetrics, Storage.DashboardCpu
--                      the files of internal/storage of those names; DashboardCpu is
--                      ConfigureDashboardCPU of dashboard_series.go.
--   Storage.SeriesRows, Storage.SeriesQuery
--                      series.go's loop over joined rows (seriesWithBaseline), and its checks, poll
--                      ids and baselines (BoundedSeries, previousCounterValuesFrom).
--   Storage.DashboardPolls
--                      dashboardPollIDs of dashboard_series.go.
--   Storage.Db         the tables of internal/storage/schema.sql as lists of rows.
--   Storage.Targets, Storage.Write, Storage.Query, Storage.Retention
--                      target_identity.go, write.go, query.go and retention.go over those tables.
--   Storage.Integrity  what the schema's keys and references promise.
--   Monitor.State      the Monitor and its Status; Store is the interface to internal/storage.
--   Monitor.Restart    detectAppRun and its signals.
--   Monitor.Poll       PollNow; its children state what a poll and a sequence of polls do.
--   Monitor.NoPoll, Monitor.FollowUp
--                      EnableNoPoll, and the start of the polling loop.
--   Monitor.Tables     the Store interface filled by the operations of Storage.
--   Monitor.Manager    NewManager and ResolveTarget.
--   Server.Request     query parameters, the retention clamp and the loss of a baseline, in
--                      internal/server/request.go and range.go.
--   Server.Status, Server.Events
--                      the responses of public_status.go and public_events.go.
--   Scenarios          the theorems on concrete data.
--
-- How state is modelled. An operation takes the state and returns it changed: the tables for the
-- store, the Monitor record for a monitor. PollNow holds `pollMu`, so the polls of a monitor are a
-- sequence of steps; the collector's answer and the clock are inputs of a step. A pointer that may be
-- nil is an Option. A Go map is an association list with distinct keys. The variables that a loop's
-- closures share are one record. Loops are structural recursion, except that of parseLabels, which
-- has one unit of fuel more than its text has bytes: a round takes at least one byte off the text.
--
-- SQL. A statement is what its text says over the lists of rows: a new key is one more than the
-- greatest, ORDER BY is an insertion sort, NOT NULL, CHECK and FOREIGN KEY refuse a row, ON DELETE
-- CASCADE deletes with the poll, and SQLite stores a NaN as NULL. A transaction that fails leaves the
-- tables as they were. Time columns sort by instant, as the code's layout makes them, and a metric
-- kind or a severity is one of its two constants.
--
-- Bounds. Keys, counters and instants are natural numbers: the code's int64 does not overflow for
-- fewer than 2^63 polls. The uint64 of a fingerprint wraps at 2^64. Texts are valid UTF-8 (the
-- Prometheus parser's are bytes), and strings.TrimSpace and ToUpper are modelled on code points.
-- AddDate counts days of 24 hours, as UTC has.
--
-- Not modelled: I/O and faults of SQLite itself (the Store interface of a monitor may fail at any
-- call), HTTP and templates, logs, the Spring, Micronaut and StatLite collectors, the Prometheus
-- client's requests, the decoding of the configuration file (net/url's parser and ParseDuration are
-- arguments of its validation), the migration of old databases.
pub mod Prelude
pub mod Result
pub mod Float
pub mod Bytes
pub mod Prometheus
pub mod Config
pub mod Time
pub mod Collector
pub mod Storage
pub mod Monitor
pub mod Server
pub mod Scenarios
