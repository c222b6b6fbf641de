-- ===== src/App.antt =====
-- cmd/main: the programs, by the flag `app`.
pub mod Benchmark
pub mod Load
pub mod Programs
pub mod Signals
