-- ===== src/Tests.antt =====
-- Concrete libraries, tests by evaluation, and the theorems at concrete inputs.
mod Codec
mod Libraries
mod Engine
mod Matching
mod Banking
mod Logging
mod Starting
mod Resuming
mod Requests
mod Versions
mod Writing
mod Acknowledging
mod Settling
mod Programs
