-- ===== src/Scenarios.antt =====
-- Concrete runs: each theorem on data of the kind that the program handles, with whole numbers for
-- float64.
mod Points
mod Rows
mod Monitors
mod Requests
mod Samples
mod Expositions
mod Configs
mod Scrapes
