-- ===== src/Driver.antt =====
-- cmd/driver/main.go: the measured process. One module for each part: the counters, the worker, the
-- race of the workers with the latch, the memory sampler and the report.
pub mod Counters
pub mod Worker
pub mod Race
pub mod Run
pub mod Sampler
pub mod Report
pub mod Main
pub mod Metrics
mod Tests
